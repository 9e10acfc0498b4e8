-- ===== src/Log.antt =====
-- kernel/log.c: the redo log of the file system, over the contract of the buffer cache.
-- `Cache` has for each block of the device what `bread` returns (`buf`) and what the disk holds
-- (`disk`). `power` is the number of block writes before the machine stops: a write after that
-- leaves the disk alone, so that the disk at the end of a run is the disk at the crash.
pub mod Replay
pub mod Steps
pub mod Durable
pub mod Clear
pub mod Recover
pub mod Commit
pub mod Crash
pub mod Calls
pub mod Running
pub mod Space
pub mod Capacity
pub mod Absorb
mod Tests
use os_project_cs.Prelude.{
  ℕ, zero, suc, ◌+◌, ◌-◌, ◌*◌, ◌%◌, ◌^◌, Bool, true, false, not, ◌||◌, ltb, leb, ◌==◌,
  if◌then◌else◌, update,
}
use os_project_cs.Outcome.{Message, Outcome, ok, panic, ◌>>=◌}
use os_project_cs.Spinlock.{Cpu, Spinlock, initlock, acquire, release}

abbrev pub max_op_blocks : ℕ
max_op_blocks = 10

abbrev pub log_size : ℕ
log_size = max_op_blocks * 3

abbrev pub bsize : ℕ
bsize = 1024

-- The contents of a block, as `uint` words.
abbrev pub Block : Type 0
Block = ℕ → ℕ

pub record Cache : Type 0 where
  pub buf : ℕ → Block
  pub disk : ℕ → Block
  pub pins : ℕ → ℕ  -- the part of `refcnt` that `bpin` and `bunpin` change
  pub power : ℕ

-- `struct logheader`
pub record LogHeader : Type 0 where
  pub n : ℕ
  pub block : ℕ → ℕ

-- `struct log`, with the cache, the hart that runs, and the number of calls of `wakeup(&log)`.
pub record Log : Type 0 where
  pub cpu : Cpu
  pub lock : Spinlock
  pub start : ℕ
  pub size : ℕ
  pub outstanding : ℕ
  pub committing : Bool
  pub lh : LogHeader
  pub cache : Cache
  pub wakeups : ℕ

-- `bwrite`: the block goes to the disk, if the machine still runs. The caller has the buffer from
-- `bread` and so holds its sleep lock, which `bwrite` tests.
abbrev pub write_disk : ℕ → (ℕ → Block) → ℕ → Block → ℕ → Block
write_disk zero d b v = d
write_disk (suc p) d b v = update d b v

unfoldable pub bwrite : ℕ → Cache → Cache
bwrite b c = record c { disk = write_disk c.power c.disk b (c.buf b); power = c.power - 1 }

-- The assignment of a whole block to `b->data`.
abbrev pub set_data : ℕ → Block → Cache → Cache
set_data b v c = record c { buf = update c.buf b v }

-- `refcnt` is a `uint`, which `bpin` and `bunpin` change in one step, with the lock of the cache held.
unfoldable pub bpin : ℕ → Cache → Cache
bpin b c = record c { pins = update c.pins b ((c.pins b + 1) % 2 ^ 32) }

unfoldable pub bunpin : ℕ → Cache → Cache
bunpin b c = record c { pins = update c.pins b ((c.pins b + 2 ^ 32 - 1) % 2 ^ 32) }

-- The loop of `install_trans` from round `tail`, with `k` rounds left.
unfoldable pub install_trans : Bool → ℕ → LogHeader → ℕ → ℕ → Cache → Cache
unfolding bwrite bunpin
install_trans recovering start lh zero tail c = c
install_trans recovering start lh (suc k) tail c =
    let dst = lh.block tail in
    let copied = set_data dst (c.buf (start + tail + 1)) c in
    let written = bwrite dst copied in
    install_trans recovering start lh k (tail + 1)
      (if recovering then written else bunpin dst written)

-- The loop of `read_head` from index `i`, with `k` rounds left.
unfoldable pub read_blocks : ℕ → ℕ → Block → (ℕ → ℕ) → ℕ → ℕ
read_blocks zero i hb block = block
read_blocks (suc k) i hb block = read_blocks k (i + 1) hb (update block i (hb (i + 1)))

-- The source has room for `LOGSIZE` numbers and does not test the count that it reads; here there is
-- room for any.
unfoldable pub read_head : ℕ → LogHeader → Cache → LogHeader
unfolding read_blocks
read_head start lh c =
    let hb = c.buf start in record { n = hb 0; block = read_blocks (hb 0) 0 hb lh.block }

-- The loop of `write_head` from index `i`, with `k` rounds left.
unfoldable pub write_blocks : ℕ → ℕ → (ℕ → ℕ) → Block → Block
write_blocks zero i block hb = hb
write_blocks (suc k) i block hb = write_blocks k (i + 1) block (update hb (i + 1) (block i))

unfoldable pub write_head : ℕ → LogHeader → Cache → Cache
unfolding bwrite write_blocks
write_head start lh c =
    bwrite start (set_data start (write_blocks lh.n 0 lh.block (update (c.buf start) 0 lh.n)) c)

-- The loop of `write_log` from round `tail`, with `k` rounds left.
unfoldable pub write_log : ℕ → LogHeader → ℕ → ℕ → Cache → Cache
unfolding bwrite
write_log start lh zero tail c = c
write_log start lh (suc k) tail c =
    let to = start + tail + 1 in
    write_log start lh k (tail + 1) (bwrite to (set_data to (c.buf (lh.block tail)) c))

unfoldable pub recover_from_log : Log → Log
unfolding read_head install_trans write_head
recover_from_log l =
    let lh = read_head l.start l.lh l.cache in
    let c = install_trans true l.start lh lh.n 0 l.cache in
    let lh' = record lh { n = 0 } in record l { lh = lh'; cache = write_head l.start lh' c }

-- `sizeof(struct logheader)` is 4 bytes for the count and 4 for each block number.
unfoldable pub initlog : ℕ → ℕ → Log → Outcome Log
unfolding recover_from_log initlock
initlog logstart nlog l =
    if leb bsize (4 * (1 + log_size))
    then panic Message.initlog
    else ok (recover_from_log (record l { lock = initlock l.lock; start = logstart; size = nlog }))

unfoldable pub commit : Log → Log
unfolding write_log write_head install_trans
commit l =
    if ltb 0 l.lh.n
    then (let c1 = write_log l.start l.lh l.lh.n 0 l.cache in
        let c2 = write_head l.start l.lh c1 in
        let c3 = install_trans false l.start l.lh l.lh.n 0 c2 in
        let lh' = record (l.lh) { n = 0 } in
        record l { lh = lh'; cache = write_head l.start lh' c3 })
    else l

-- Whether a round of the loop of `begin_op` lets the operation in or puts it to sleep on the log.
pub data Admission : Type 0 where
  admitted asleep : Admission

-- One round of `begin_op`. `sleep` gives the lock back, and takes it again for the next round.
unfoldable pub begin_op : Log → Outcome (Admission × Log)
begin_op l = do
  (c, lk) ← acquire l.cpu l.lock
  (c', lk') ← release c lk
  ok (
      if l.committing
      then (asleep, record l { cpu = c'; lock = lk' })
      else if ltb log_size (l.lh.n + (l.outstanding + 1) * max_op_blocks)
      then (asleep, record l { cpu = c'; lock = lk' })
      else (admitted, record l { cpu = c'; lock = lk'; outstanding = l.outstanding + 1 }))

-- The second critical section of `end_op`, after `commit`.
unfoldable pub end_commit : Log → Outcome Log
end_commit l = do
  (c, lk) ← acquire l.cpu l.lock
  (c', lk') ← release c lk
  ok (record l { cpu = c'; lock = lk'; committing = false; wakeups = l.wakeups + 1 })

-- The first critical section of `end_op`, and `do_commit`. A caller has begun, so that `outstanding` is
-- at least 1; without that it would go to -1, which is not 0 either.
unfoldable pub end_begin : Log → Outcome (Bool × Log)
end_begin l = do
  (c, lk) ← acquire l.cpu l.lock
  if l.committing then panic Message.log_committing else do
    let left = record l { outstanding = l.outstanding - 1 }
    (c', lk') ← release c lk
    ok (
        if l.outstanding == 1
        then (true, record left { cpu = c'; lock = lk'; committing = true })
        else (false, record left { cpu = c'; lock = lk'; wakeups = l.wakeups + 1 }))

unfoldable pub end_op : Log → Outcome Log
unfolding end_begin commit end_commit
end_op l = do (do_commit, l') ← end_begin l; if do_commit then end_commit (commit l') else ok l'

-- The loop of `log_write`: the first index from `i` that names the block, or the end.
unfoldable pub absorb : ℕ → ℕ → (ℕ → ℕ) → ℕ → ℕ
absorb zero i block b = i
absorb (suc k) i block b = let rest = absorb k (i + 1) block b in if block i == b then i else rest

unfoldable pub log_write : ℕ → Log → Outcome Log
unfolding absorb bpin
log_write b l = do
  (c, lk) ← acquire l.cpu l.lock
  if leb log_size l.lh.n || leb (l.size - 1) l.lh.n
      then panic Message.too_big_a_transaction
      else if ltb l.outstanding 1
      then panic Message.log_write_outside_of_trans
      else do
        let i = absorb l.lh.n 0 l.lh.block b
        let block = update l.lh.block i b
        let added = i == l.lh.n
        (c', lk') ← release c lk
        ok (record l {
          cpu = c';
          lock = lk';
          lh = record { n = if added then l.lh.n + 1 else l.lh.n; block = block };
          cache = if added then bpin b l.cache else l.cache;
        })
