-- ===== src/Proc/Wait.antt =====
-- `killed`, `sched`, `sleep`, `yield` and `wait` of kernel/proc.c, each up to where it returns or
-- switches to the scheduler.
pub mod Switch
pub mod Reap
pub mod Ends
use os_project_cs.Prelude.{
  ℕ, zero, suc, ◌+◌, Bool, true, false, not, ◌&&◌, ◌||◌, List, [], ◌∷◌, ◌++◌, Option, none, some,
  ◌==◌, if◌then◌else◌, get_elem?, set, ◌≡◌, ap,
}
use os_project_cs.Outcome.{Outcome, ok, panic, blocked, Message, ◌>>=◌}
use os_project_cs.Spinlock.{Cpu, Spinlock, is_cpu, holding, acquire, release}
use os_project_cs.Proc.{
  Proc, Kernel, ProcState, running, runnable, sleeping, is_zombie, Chan, Freed, cleared,
  handed_back,
}

abbrev pub is_running : ProcState → Bool
is_running running = true
is_running _ = false

-- The process at a slot; a pointer to a slot always points into the table.
abbrev pub at_slot {ℓ} : {A : Type ℓ} → Kernel → ℕ → (Proc → Outcome A) → Outcome A
at_slot s i f = elim (get_elem? s.procs i) [ none ↦ blocked | some p ↦ f p ]

pub at_slot-some {ℓ} :
    {A : Type ℓ} (s : Kernel) (i : ℕ) (p : Proc) (f : Proc → Outcome A)
    → get_elem? s.procs i ≡ some p
    → at_slot s i f ≡ f p
at_slot-some {A = A} s i p f e =
    ap (λ o. elim o as (λ _. Outcome A) [ none ↦ blocked | some q ↦ f q ]) e

unfoldable pub killed : ℕ → Kernel → Outcome (Bool × Kernel)
killed i s = at_slot s i (λ p. do
  (c, lk) ← acquire s.cpu p.lock
  let k = p.killed
  (c', lk') ← release c lk
  ok (k, record s { cpu = c'; procs = set s.procs i (record p { lock = lk' }) }))

-- The tests of `sched` for the process at slot `i`; the state is that at `swtch`.
unfoldable pub sched : ℕ → Kernel → Outcome Kernel
unfolding holding
sched i s = at_slot s i (λ p.
    if not (holding s.cpu p.lock)
    then panic Message.sched_p_lock
    else if not (s.cpu.noff == 1)
    then panic Message.sched_locks
    else if is_running p.state
    then panic Message.sched_running
    else if s.cpu.intr
    then panic Message.sched_interruptible
    else ok s)

-- `yield` up to `swtch`.
unfoldable pub yield : ℕ → Kernel → Outcome Kernel
unfolding sched
yield i s = at_slot s i (λ p. do
  (c, lk) ← acquire s.cpu p.lock
  sched i (record s { cpu = c; procs = set s.procs i (record p { lock = lk; state = runnable }) }))

-- `sleep(chan, lk)` up to `swtch`, with the lock that it gives back.
unfoldable pub sleep : ℕ → Chan → Spinlock → Kernel → Outcome (Spinlock × Kernel)
unfolding sched
sleep i ch lock s = at_slot s i (λ p. do
  (c, lk) ← acquire s.cpu p.lock
  (c', lock') ← release c lock
  s' ← sched i (record s {
    cpu = c';
    procs = set s.procs i (record p { lock = lk; chan = ch; state = sleeping });
  })
  ok (lock', s'))

-- What the loop of `wait` over the table finds: a zombie child with its pid, one whose status cannot
-- be copied out, or no zombie child, and whether there are children.
pub data Scan : Type 0 where
  reaped : ℕ → Scan
  not_copied : Scan
  no_zombie : Bool → Scan

-- `havekids = 1`.
abbrev pub have_kids : Bool → Scan → Scan
have_kids true (no_zombie kids) = no_zombie true
have_kids _ e = e

-- One round of the loop for the parent `me`; `copied` says whether the status is asked for and copied
-- out, or not asked for.
unfoldable pub wait_slot :
    ℕ → Bool → Cpu → Proc → Outcome (Option Scan × Bool × Cpu × Proc × List Freed)
unfolding cleared handed_back
wait_slot me copied c p = if not (is_cpu p.parent me) then ok (none, false, c, p, []) else do
  (c1, lk) ← acquire c p.lock
  (c2, lk') ← release c1 lk
  ok (
      if is_zombie p.state
      then if copied
        then (some (reaped p.pid), true, c2, record (cleared p) { lock = lk' }, handed_back p)
        else (some not_copied, true, c2, record p { lock = lk' }, [])
      else (none, true, c2, record p { lock = lk' }, []))

unfoldable pub wait_rounds :
    ℕ → Bool → Cpu → List Proc → Outcome (Scan × Cpu × List Proc × List Freed)
unfolding wait_slot
wait_rounds me copied c [] = ok (no_zombie false, c, [], [])
wait_rounds me copied c (p ∷ ps) = do
  (found, kid, c1, p', freed) ← wait_slot me copied c p
  elim found [
    | some e ↦ ok (e, c1, p' ∷ ps, freed)
    | none ↦ do
      (e, c2, ps', freed') ← wait_rounds me copied c1 ps
      ok (have_kids kid e, c2, p' ∷ ps', freed')
  ]

-- How a pass of `wait` ends: with a pid, with -1, or asleep.
pub data WaitEnd : Type 0 where
  returned : ℕ → WaitEnd
  minus_one : WaitEnd
  asleep : WaitEnd

-- `release(&wait_lock); return`.
abbrev pub leave : WaitEnd → Kernel → Outcome (WaitEnd × Kernel)
leave e s = do (c, lk) ← release s.cpu s.wait_lock; ok (e, record s { cpu = c; wait_lock = lk })

-- One pass of the outer loop of `wait` for the process at slot `me`.
unfoldable pub wait : ℕ → Bool → Kernel → Outcome (WaitEnd × Kernel)
unfolding wait_rounds killed sleep
wait me copied s = do
  (c, lk) ← acquire s.cpu s.wait_lock
  (e, c', ps, freed) ← wait_rounds me copied c s.procs
  let s' = record s { cpu = c'; wait_lock = lk; procs = ps; freed = freed ++ s.freed }
  elim e [
    | reaped pid ↦ leave (returned pid) s'
    | not_copied ↦ leave minus_one s'
    | no_zombie kids ↦ if not kids then leave minus_one s' else do
      (k, s1) ← killed me s'
      if k then leave minus_one s1 else do
        (lk', s2) ← sleep me (Chan.slot me) s1.wait_lock s1
        ok (asleep, record s2 { wait_lock = lk' })
  ]
