-- ===== src/Proc/Wait/Switch.antt =====
-- `sleep` and `yield` of kernel/proc.c up to `swtch`: with no other lock than the caller's, none of the
-- panics of `sched` is reached.
use os_project_cs.Prelude.{
  ℕ, ◌+◌, ◌≡◌, refl, ◌∙◌, true, false, some, arith, ◌==◌, sym, ap, get_elem?, set, ◌<◌, ==_refl,
  get_elem?-set_self, get_elem?-bound,
}
use os_project_cs.Outcome.{ok, panic, Message}
use os_project_cs.Spinlock.{Cpu, holding, push_off, release}
use os_project_cs.Spinlock.Nesting.{IsSettled, push_off_step}
use os_project_cs.Spinlock.Section.{unlocked, locked_by, release_held}
use os_project_cs.Proc.{Proc, Kernel, runnable, sleeping, Chan}
use os_project_cs.Proc.Quiet.{acquire_slot, after-push_off}
use os_project_cs.Proc.Wait.{sched, at_slot-some, yield, sleep, is_running}

-- `sched` for a process that holds its own lock only, with interrupts off, and does not run any more.
pub sched_allows :
    (i : ℕ) (s : Kernel) (p : Proc)
    → get_elem? s.procs i ≡ some p
    → holding s.cpu p.lock ≡ true
    → s.cpu.noff ≡ 1
    → is_running p.state ≡ false
    → s.cpu.intr ≡ false
    → sched i s ≡ ok s
unfolding sched
sched_allows i s p at held one stopped off =
    let one' : (s.cpu.noff == 1) ≡ true = ground arith in
    at_slot-some s i p _ at ∙ rw (held, one', stopped, off) refl

pub held_alone :
    (c : Cpu)
    → c.noff ≡ 0
    → (holding (push_off c) (locked_by c) ≡ true)
      × ((push_off c).noff ≡ 1)
      × ((push_off c).intr ≡ false)
      × ((push_off c).id ≡ c.id)
unfolding holding push_off
held_alone c level = (==_refl c.id, omega arith, refl, refl)

-- The state at `swtch` in `sleep`: the slot holds a sleeper, with its lock, which is the only one.
pub sleep_lem :
    (i : ℕ) (ch : Chan) (s : Kernel) (c : Cpu) (p : Proc)
    → get_elem? s.procs i ≡ some p
    → p.lock ≡ unlocked
    → IsSettled c
    → c.noff ≡ 0
    → s.cpu ≡ push_off c
    → sleep i ch (locked_by c) s
      ≡ ok (
        unlocked,
        record s {
          cpu = push_off c;
          procs = set s.procs i (record p { lock = locked_by c; chan = ch; state = sleeping });
        },
      )
unfolding sleep push_off
sleep_lem i ch s c p at free h level inside =
    let asleep = record p { lock = locked_by c; chan = ch; state = sleeping } in
    let s' : Kernel = record s { cpu = push_off c; procs = set s.procs i asleep } in
    let freed : release (push_off (push_off c)) (locked_by c) ≡ ok (push_off c, unlocked) =
      ap (λ n. release (push_off (push_off c)) (record { locked = true; cpu = some n }))
        (sym (held_alone c level).3)
      ∙ release_held (push_off c) (push_off_step c).settled
      ∙ ap (λ c'. ok (c', unlocked)) (after-push_off c) in
    let switched : sched i s' ≡ ok s' =
      sched_allows i s' asleep (get_elem?-set_self s.procs i asleep (get_elem?-bound s.procs i at))
        (held_alone c level).0 (held_alone c level).1 refl (held_alone c level).2 in
    at_slot-some s i p _ at
    ∙ rw (inside, acquire_slot (push_off c) p.lock free, freed, switched) refl

-- With every lock free, `yield` of a process reaches `swtch` without a panic: its slot is runnable,
-- and its lock is held, as `scheduler` expects.
pub yield_lem :
    (i : ℕ) (s : Kernel) (p : Proc)
    → get_elem? s.procs i ≡ some p
    → p.lock ≡ unlocked
    → s.cpu.noff ≡ 0
    → yield i s
      ≡ ok (record s {
        cpu = push_off s.cpu;
        procs = set s.procs i (record p { lock = locked_by s.cpu; state = runnable });
      })
unfolding yield push_off
yield_lem i s p at free level =
    let ready = record p { lock = locked_by s.cpu; state = runnable } in
    let s' : Kernel = record s { cpu = push_off s.cpu; procs = set s.procs i ready } in
    let switched : sched i s' ≡ ok s' =
      sched_allows i s' ready (get_elem?-set_self s.procs i ready (get_elem?-bound s.procs i at))
        (held_alone s.cpu level).0 (held_alone s.cpu level).1 refl (held_alone s.cpu level).2 in
    at_slot-some s i p _ at ∙ rw (acquire_slot s.cpu p.lock free, switched) refl

-- A process that goes to sleep while it holds a lock besides the one that it passes reaches the panic
-- of `sched` on the number of locks.
pub sleep_panics :
    (i : ℕ) (ch : Chan) (s : Kernel) (c : Cpu) (p : Proc)
    → get_elem? s.procs i ≡ some p
    → p.lock ≡ unlocked
    → IsSettled c
    → 0 < c.noff
    → s.cpu ≡ push_off c
    → sleep i ch (locked_by c) s ≡ panic Message.sched_locks
unfolding sleep push_off sched
sleep_panics i ch s c p at free h level inside =
    let asleep = record p { lock = locked_by c; chan = ch; state = sleeping } in
    let freed : release (push_off (push_off c)) (locked_by c) ≡ ok (push_off c, unlocked) =
      release_held (push_off c) (push_off_step c).settled
      ∙ ap (λ c'. ok (c', unlocked)) (after-push_off c) in
    let two : (c.noff + 1 == 1) ≡ false = ground arith in
    let mine : (c.id == c.id) ≡ true = ==_refl c.id in
    let found = get_elem?-set_self s.procs i asleep (get_elem?-bound s.procs i at) in
    let s' : Kernel = record s { cpu = push_off c; procs = set s.procs i asleep } in
    let stopped : sched i s' ≡ panic Message.sched_locks =
      at_slot-some s' i asleep _ found ∙ rw (mine, two) refl in
    at_slot-some s i p _ at
    ∙ rw (inside, acquire_slot (push_off c) p.lock free, freed, stopped) refl
