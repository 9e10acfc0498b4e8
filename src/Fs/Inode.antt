-- ===== src/Fs/Inode.antt =====
-- The inodes of kernel/fs.c: the copies in memory and those on disk, 64 bytes each.
pub mod Dinode
pub mod Update
use os_project_cs.Prelude.{
  ℕ, zero, suc, ◌+◌, ◌-◌, ◌*◌, ◌/◌, ◌%◌, ◌^◌, Bool, true, false, not, ◌&&◌, ◌||◌, List, [], ◌∷◌,
  Option, none, some, ◌==◌, ltb, leb, if◌then◌else◌, update, get_elem?, set,
}
use os_project_cs.Outcome.{Message, Outcome, ok, panic, blocked, ◌>>=◌}
use os_project_cs.Fs.{Superblock, Fs, bread, brelse, log_write}
use os_project_cs.Log.{bsize}

abbrev pub ndirect : ℕ
ndirect = 12

-- What an inode has both in memory and on disk; the shorts are their bit patterns.
pub record Content : Type 0 where
  pub type : ℕ
  pub major : ℕ
  pub minor : ℕ
  pub nlink : ℕ
  pub size : ℕ
  pub addrs : List ℕ

-- `struct inode` without its sleep lock, of which `locked` says whether it is held.
pub record Inode : Type 0 where
  pub dev : ℕ
  pub inum : ℕ
  pub ref : ℕ
  pub locked : Bool
  pub valid : Bool
  pub content : Content

-- `sizeof(struct dinode)` and `IPB`.
abbrev pub dinode_size : ℕ
dinode_size = 64

abbrev pub ipb : ℕ
ipb = bsize / dinode_size

-- `IBLOCK(i, sb)`.
abbrev pub iblock : ℕ → Superblock → ℕ
iblock i sb = i / ipb + sb.inodestart

-- Where the inode stands in its block.
abbrev pub place : ℕ → ℕ
place inum = inum % ipb * dinode_size

abbrev pub Bytes : Type 0
Bytes = ℕ → ℕ

-- Shorts and words in memory, the low byte first.
unfoldable pub get_short : Bytes → ℕ → ℕ
get_short m a = m a + 256 * m (a + 1)

unfoldable pub get_word : Bytes → ℕ → ℕ
unfolding get_short
get_word m a = get_short m a + 65536 * get_short m (a + 2)

unfoldable pub put_short : ℕ → ℕ → Bytes → Bytes
put_short v a m = update (update m a (v % 256)) (a + 1) (v / 256 % 256)

unfoldable pub put_word : ℕ → ℕ → Bytes → Bytes
unfolding put_short
put_word v a m = put_short (v / 65536) (a + 2) (put_short v a m)

-- The words of `addrs` moved from and to memory by `memmove`.
unfoldable pub get_words : ℕ → Bytes → ℕ → List ℕ
unfolding get_word
get_words zero m a = []
get_words (suc n) m a = get_word m a ∷ get_words n m (a + 4)

unfoldable pub put_words : List ℕ → ℕ → Bytes → Bytes
unfolding put_word
put_words [] a m = m
put_words (v ∷ vs) a m = put_words vs (a + 4) (put_word v a m)

-- The assignments from `dip` in `ilock`, with `dip` at `a`.
unfoldable pub read_dinode : Bytes → ℕ → Content
unfolding get_short get_word get_words
read_dinode m a = record {
  type = get_short m a;
  major = get_short m (a + 2);
  minor = get_short m (a + 4);
  nlink = get_short m (a + 6);
  size = get_word m (a + 8);
  addrs = get_words (ndirect + 1) m (a + 12);
}

-- The assignments to `dip` in `iupdate`.
unfoldable pub write_dinode : Content → ℕ → Bytes → Bytes
unfolding put_short put_word put_words
write_dinode c a m = put_words c.addrs (a + 12) (
    put_word c.size (a + 8) (
      put_short c.nlink (a + 6)
        (put_short c.minor (a + 4) (put_short c.major (a + 2) (put_short c.type a m)))))

unfoldable pub iupdate : Inode → Fs → Outcome Fs
unfolding bread brelse log_write write_dinode
iupdate ip s = do
  let b = iblock ip.inum s.sb
  s1 ← bread b s
  let bytes = write_dinode ip.content (place ip.inum) (s1.block b)
  s2 ← log_write b (record s1 { block = update s1.block b bytes })
  brelse b s2

-- `ilock`. A lock that another process holds makes it wait.
unfoldable pub ilock : Inode → Fs → Outcome (Inode × Fs)
unfolding bread brelse read_dinode
ilock ip s =
    if ltb ip.ref 1
    then panic Message.ilock
    else if ip.locked
    then blocked
    else if ip.valid
    then ok (record ip { locked = true }, s)
    else do
      let b = iblock ip.inum s.sb
      s1 ← bread b s
      let c = read_dinode (s1.block b) (place ip.inum)
      s2 ← brelse b s1
      if c.type == 0
          then panic Message.ilock_no_type
          else ok (record ip { locked = true; content = c; valid = true }, s2)

unfoldable pub iunlock : Inode → Outcome Inode
iunlock ip =
    if not ip.locked || ltb ip.ref 1
    then panic Message.iunlock
    else ok (record ip { locked = false })
