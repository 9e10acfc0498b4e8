-- ===== src/Pipe.antt =====
-- kernel/pipe.c: `struct pipe` and its operations. User memory enters by `copyin` and `copyout` of
-- one byte, and the caller's `killed` flag by its value at each round. A call that sleeps returns
-- with the lock released, and is resumed by a call from the byte that it had reached.
pub mod Ring
pub mod Write
pub mod Read
pub mod Fifo
pub mod Close
mod Tests
use os_project_cs.Prelude.{
  ℕ, zero, suc, ◌+◌, ◌-◌, ◌%◌, ◌^◌, Bool, true, false, not, ◌&&◌, ◌||◌, Option, none, some, List,
  [], ◌∷◌, get_or, set, ◌==◌, if◌then◌else◌,
}
use os_project_cs.Outcome.{Outcome, ok, ◌>>=◌}
use os_project_cs.Spinlock.{Cpu, Spinlock, acquire, release}

abbrev pub pipesize : ℕ
pipesize = 512

-- The addresses that processes sleep on.
pub data Chan : Type 0 where
  nread_chan nwrite_chan : Chan

-- `struct pipe`, with the hart that runs and the channels that were woken, the last one first.
pub record Pipe : Type 0 where
  pub cpu : Cpu
  pub lock : Spinlock
  pub bytes : List ℕ
  pub nread : ℕ
  pub nwrite : ℕ
  pub readopen : Bool
  pub writeopen : Bool
  pub woken : List Chan

abbrev pub wakeup : Chan → Pipe → Pipe
wakeup ch s = record s { woken = ch ∷ s.woken }

-- `pi->data[pi->nwrite++ % PIPESIZE] = ch`, with `nwrite` a `uint`.
unfoldable pub put : ℕ → Pipe → Pipe
put ch s = record s {
  bytes = set s.bytes (s.nwrite % pipesize) ch;
  nwrite = (s.nwrite + 1) % 2 ^ 32;
}

-- `pi->nread++`.
unfoldable pub advance : Pipe → Pipe
advance s = record s { nread = (s.nread + 1) % 2 ^ 32 }

-- How the loop of `pipewrite` ends: with `i` bytes written, with -1, or asleep at byte `i`.
pub data WriteEnd : Type 0 where
  wrote : ℕ → WriteEnd
  refused : WriteEnd
  asleep : ℕ → WriteEnd

-- The test of `pi->nwrite == pi->nread + PIPESIZE` on `uint`s.
abbrev pub is_full : Pipe → Bool
is_full s = s.nwrite == (s.nread + pipesize) % 2 ^ 32

-- The loop of `pipewrite` at byte `i`, with `k` bytes left.
unfoldable pub write_rounds : (ℕ → Option ℕ) → (ℕ → Bool) → ℕ → ℕ → Pipe → WriteEnd × Pipe
unfolding put
write_rounds copyin killed zero i s = (wrote i, s)
write_rounds copyin killed (suc k) i s =
    let rest = λ (ch : ℕ). write_rounds copyin killed k (i + 1) (put ch s) in
    if not s.readopen || killed i
    then (refused, s)
    else if is_full s
    then (asleep i, wakeup Chan.nread_chan s)
    else elim (copyin i) [ none ↦ (wrote i, s) | some ch ↦ rest ch ]

abbrev pub wake_readers : WriteEnd × Pipe → WriteEnd × Pipe
wake_readers (wrote i, s) = (wrote i, wakeup Chan.nread_chan s)
wake_readers (e, s) = (e, s)

-- `pipewrite` of `k` bytes from byte `i` on, until it returns or sleeps.
unfoldable pub pipewrite : (ℕ → Option ℕ) → (ℕ → Bool) → ℕ → ℕ → Pipe → Outcome (WriteEnd × Pipe)
unfolding write_rounds
pipewrite copyin killed k i s = do
  (c, lk) ← acquire s.cpu s.lock
  let out = wake_readers (write_rounds copyin killed k i s)
  (c', lk') ← release c lk
  ok (out.0, record (out.1) { cpu = c'; lock = lk' })

-- How `piperead` ends: with `i` bytes delivered, with -1, or asleep.
pub data ReadEnd : Type 0 where
  delivered : ℕ → ReadEnd
  interrupted : ReadEnd
  waiting : ReadEnd

-- The copying loop of `piperead` at byte `i`, with `k` bytes left: the bytes that leave the pipe, and
-- how many of them were copied out. `copyout` says whether byte `i` could be stored.
unfoldable pub read_rounds : (ℕ → Bool) → ℕ → ℕ → Pipe → List ℕ × ℕ × Pipe
unfolding advance
read_rounds copyout zero i s = ([], i, s)
read_rounds copyout (suc k) i s =
    let ch = get_or s.bytes (s.nread % pipesize) 0 in
    let rest = read_rounds copyout k (i + 1) (advance s) in
    if s.nread == s.nwrite
    then ([], i, s)
    else if copyout i
    then (ch ∷ rest.0, rest.1, rest.2)
    else (ch ∷ [], i, advance s)

-- `piperead` of `n` bytes, until it returns or sleeps, with the bytes that left the pipe.
unfoldable pub piperead : (ℕ → Bool) → Bool → ℕ → Pipe → Outcome (ReadEnd × List ℕ × Pipe)
unfolding read_rounds
piperead copyout killed n s = do
  (c, lk) ← acquire s.cpu s.lock
  let copied = read_rounds copyout n 0 s
  let s' = wakeup Chan.nwrite_chan copied.2
  (c', lk') ← release c lk
  ok (
      if (s.nread == s.nwrite) && s.writeopen
      then (if killed then interrupted else waiting, [], record s { cpu = c'; lock = lk' })
      else (delivered copied.1, copied.0, record s' { cpu = c'; lock = lk' }))

-- `pipeclose`, and whether it frees the page of the pipe.
unfoldable pub pipeclose : Bool → Pipe → Outcome (Bool × Pipe)
pipeclose writable s = do
  (c, lk) ← acquire s.cpu s.lock
  let closed =
      if writable
      then wakeup Chan.nread_chan (record s { writeopen = false })
      else wakeup Chan.nwrite_chan (record s { readopen = false })
  (c', lk') ← release c lk
  ok (not closed.readopen && not closed.writeopen, record closed { cpu = c'; lock = lk' })
