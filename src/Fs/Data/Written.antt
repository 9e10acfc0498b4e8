-- ===== src/Fs/Data/Written.antt =====
-- `writei` of kernel/fs.c on a file whose blocks are allocated, and `readi` after it.
use os_project_cs.Prelude.{ℕ, ◌+◌, ◌*◌, ◌/◌, ◌<◌, ◌≤◌, ◌≡◌, ◌≢◌, Bool, false, ltb, if◌then◌else◌}
use os_project_cs.Outcome.{Outcome, ok, ◌>>=◌}
use os_project_cs.Log.{bsize}
use os_project_cs.Fs.{Fs, holds}
use os_project_cs.Fs.Room.{HasRoom}
use os_project_cs.Fs.Inode.{Inode, Bytes, iblock}
use os_project_cs.Fs.Inode.Dinode.{Fits}
use os_project_cs.Fs.Inode.Update.{dinode}
use os_project_cs.Fs.Data.{Copyin, Copyout, writei, readi, maxfile}
use os_project_cs.Fs.Data.Bmap.{block_of, indirect_of}
use os_project_cs.Fs.Data.Read.{file_byte, delivered}
use os_project_cs.Fs.Data.Write.{IsOwn, spanned}

-- The inode after a write up to `off`.
abbrev pub grown : Inode → ℕ → Inode
grown ip off = record ip {
  content = record (ip.content) { size = if ltb ip.content.size off then off else ip.content.size };
}

-- A write of `n` bytes at `off` stays in blocks of the file, the inode can be put on disk, and the log
-- has room for the blocks of the write and for the block of the inode.
pub record CanWrite (s : Fs) (ip : Inode) (off n : ℕ) : Type 0 where
  pub within : off ≤ ip.content.size
  pub below : off + n ≤ maxfile * bsize
  pub own : (o : ℕ) → off ≤ o → o < off + n → IsOwn s ip (o / bsize)
  pub fits : Fits (grown ip (off + n)).content
  pub typed : ip.content.type ≢ 0
  pub free : holds s.held (iblock ip.inum s.sb) ≡ false
  pub apart : (k : ℕ) → k < maxfile → block_of s.block ip k ≢ iblock ip.inum s.sb
  pub indirect_apart : indirect_of ip ≢ iblock ip.inum s.sb
  pub room : HasRoom (spanned n off + 1) s

pub record Written (copyin : Copyin) (user : Bool) (s : Fs) (ip : Inode) (m : Bytes) (src off n : ℕ)
    : Type 0 where
  pub last : Fs
  pub runs : writei copyin user m src off n (ip, s) ≡ ok (n, grown ip (off + n), last)
  pub bytes :
      (o : ℕ)
      → o / bsize < maxfile
      → file_byte last.block (grown ip (off + n)) o ≡ delivered m src n off (file_byte s.block ip) o
  pub on_disk : dinode last ip.inum ≡ (grown ip (off + n)).content
  pub lists : (k : ℕ) → block_of last.block (grown ip (off + n)) k ≡ block_of s.block ip k
  pub others :
      (b : ℕ)
      → ((k : ℕ) → k < maxfile → block_of s.block ip k ≢ b)
      → b ≢ iblock ip.inum s.sb
      → last.block b ≡ s.block b
  pub same_sb : last.sb ≡ s.sb
  pub same_held : last.held ≡ s.held

-- `writei`, and `readi` of as many bytes at the same offset: the two results, and the memory.
abbrev pub write_then_read :
    Copyin
    → Copyout
    → Bool
    → Bool
    → Fs
    → Inode
    → Bytes
    → Bytes
    → ℕ
    → ℕ
    → ℕ
    → ℕ
    → Outcome (ℕ × ℕ × Bytes)
write_then_read copyin copyout user user' s ip m mem src off n dst = do
  (k, ip', s') ← writei copyin user m src off n (ip, s)
  (j, _, _, mem') ← readi copyout user' dst off n (ip', s', mem)
  ok (k, j, mem')
