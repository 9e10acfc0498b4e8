-- ===== src/Fs.antt =====
-- kernel/fs.c over the blocks that bread (kernel/bio.c) returns, byte by byte. The state has the
-- superblock, the bytes of each block as processes see them, the buffers that the process has locked,
-- and of the log (kernel/log.c) the blocks that its header names, the last first, the operations that
-- have begun, and how many blocks it has room for.
pub mod Room
pub mod Balloc
pub mod Inode
pub mod Itable
pub mod Data
pub mod Dir
mod Tests
use os_project_cs.Prelude.{
  ℕ, zero, suc, ◌+◌, ◌*◌, ◌/◌, Bool, true, false, List, [], ◌∷◌, ◌==◌, if◌then◌else◌, update, ◌||◌,
  ltb, leb, length,
}
use os_project_cs.Outcome.{Message, Outcome, ok, panic, blocked}
use os_project_cs.Log.{bsize}

-- `struct superblock`.
pub record Superblock : Type 0 where
  pub magic : ℕ
  pub size : ℕ
  pub nblocks : ℕ
  pub ninodes : ℕ
  pub nlog : ℕ
  pub logstart : ℕ
  pub inodestart : ℕ
  pub bmapstart : ℕ

pub record Fs : Type 0 where
  pub sb : Superblock
  pub block : ℕ → ℕ → ℕ
  pub held : List ℕ
  pub logged : List ℕ
  pub outstanding : ℕ
  pub room : ℕ  -- the smaller of `LOGSIZE` and `log.size - 1`

abbrev pub bpb : ℕ
bpb = bsize * 8

-- `BBLOCK(b, sb)`.
abbrev pub bblock : ℕ → Superblock → ℕ
bblock b sb = b / bpb + sb.bmapstart

abbrev pub holds : List ℕ → ℕ → Bool
holds [] b = false
holds (a ∷ l) b = (a == b) || holds l b

-- `bread` of a block that the process has locked itself would sleep for ever.
unfoldable pub bread : ℕ → Fs → Outcome Fs
bread b s = if holds s.held b then blocked else ok (record s { held = b ∷ s.held })

abbrev pub without : List ℕ → ℕ → List ℕ
without [] b = []
without (a ∷ l) b = if a == b then l else a ∷ without l b

unfoldable pub brelse : ℕ → Fs → Outcome Fs
brelse b s =
    if holds s.held b then ok (record s { held = without s.held b }) else panic Message.brelse

-- The header of the log with a block added, unless it names the block already.
abbrev pub absorbed : ℕ → List ℕ → List ℕ
absorbed b l = if holds l b then l else b ∷ l

-- `log_write`, with the lock of the log free.
unfoldable pub log_write : ℕ → Fs → Outcome Fs
log_write b s =
    if leb s.room (length s.logged)
    then panic Message.too_big_a_transaction
    else if ltb s.outstanding 1
    then panic Message.log_write_outside_of_trans
    else ok (record s { logged = absorbed b s.logged })

-- A byte of a buffer written.
abbrev pub set_byte : ℕ → ℕ → ℕ → Fs → Fs
set_byte b i v s = record s { block = update s.block b (update (s.block b) i v) }
