-- ===== src/Proc.antt =====
-- The process table of kernel/proc.c, with `struct proc` of kernel/proc.h. Slots are named by their
-- place in the table; every slot has its own lock. The functions are those of one hart.
pub mod Quiet
pub mod Wakeup
pub mod Kill
pub mod Alloc
pub mod Wait
pub mod Numbers
pub mod Named
pub mod Pids
pub mod KillUnused
pub mod Exit
mod Tests
use os_project_cs.Prelude.{
  ℕ, zero, suc, ◌+◌, ◌*◌, ◌%◌, ◌^◌, Bool, true, false, not, ◌&&◌, List, [], ◌∷◌, ◌++◌, Option, none,
  some, ltb, ◌==◌, if◌then◌else◌, get_elem?, set,
}
use os_project_cs.Outcome.{Outcome, ok, panic, blocked, Message, ◌>>=◌}
use os_project_cs.Spinlock.{Cpu, Spinlock, is_cpu, push_off, pop_off, acquire, release}
use os_project_cs.Kalloc.{pgsize}

-- `enum procstate`.
pub data ProcState : Type 0 where
  unused used sleeping runnable running zombie : ProcState

abbrev pub is_unused : ProcState → Bool
is_unused unused = true
is_unused _ = false

abbrev pub is_sleeping : ProcState → Bool
is_sleeping sleeping = true
is_sleeping _ = false

abbrev pub is_zombie : ProcState → Bool
is_zombie zombie = true
is_zombie _ = false

-- What a process sleeps on: the null pointer, the slot of a process, or another address.
pub data Chan : Type 0 where
  null : Chan
  slot : ℕ → Chan
  address : ℕ → Chan

abbrev pub same_chan : Chan → Chan → Bool
same_chan null null = true
same_chan (slot i) (slot j) = i == j
same_chan (address a) (address b) = a == b
same_chan _ _ = false

-- `struct proc` without `ofile` and `cwd`; of `context` the registers `ra` and `sp`, the others being
-- cleared. `none` is the null pointer.
pub record Proc : Type 0 where
  pub lock : Spinlock
  pub state : ProcState
  pub chan : Chan
  pub killed : Bool
  pub xstate : ℕ
  pub pid : ℕ
  pub parent : Option ℕ
  pub kstack : ℕ
  pub sz : ℕ
  pub pagetable : Option ℕ
  pub trapframe : Option ℕ
  pub ra : ℕ
  pub sp : ℕ
  pub name : List ℕ

-- What is handed back to the page allocator: a page, or a page table and the memory of its size.
pub data Freed : Type 0 where
  page : ℕ → Freed
  table : ℕ → ℕ → Freed

-- The globals of kernel/proc.c, with `nextpid`, an `int`, as its bit pattern, the hart that runs with its `c->proc`, and what was freed, the last
-- first.
pub record Kernel : Type 0 where
  pub cpu : Cpu
  pub current : Option ℕ
  pub procs : List Proc
  pub initproc : ℕ
  pub nextpid : ℕ
  pub pid_lock : Spinlock
  pub wait_lock : Spinlock
  pub freed : List Freed

unfoldable pub myproc : Cpu → Outcome Cpu
myproc c = pop_off (push_off c)

unfoldable pub allocpid : Kernel → Outcome (ℕ × Kernel)
allocpid s = do
  (c, lk) ← acquire s.cpu s.pid_lock
  let pid = s.nextpid
  (c', lk') ← release c lk
  ok (pid, record s { cpu = c'; pid_lock = lk'; nextpid = (s.nextpid + 1) % 2 ^ 32 })

-- The change that a loop makes to one slot while it holds the slot's lock.
abbrev pub locked_change : (Proc → Proc) → Cpu → Proc → Outcome (Cpu × Proc)
locked_change f c p = do
  (c', lk) ← acquire c p.lock
  (c'', lk') ← release c' lk
  ok (c'', record (f p) { lock = lk' })

-- What `wakeup` does to a slot.
unfoldable pub woken : Chan → Proc → Proc
woken ch p = if is_sleeping p.state && same_chan p.chan ch then record p { state = runnable } else p

-- One round of `wakeup`: the process that runs is left alone.
unfoldable pub wakeup_slot : Chan → Bool → Cpu → Proc → Outcome (Cpu × Proc)
unfolding woken
wakeup_slot ch me c p = if me then ok (c, p) else locked_change (woken ch) c p

-- The loop of `wakeup` from slot `i` on.
unfoldable pub wakeup_rounds : Chan → Option ℕ → Cpu → ℕ → List Proc → Outcome (Cpu × List Proc)
unfolding myproc wakeup_slot
wakeup_rounds ch current c i [] = ok (c, [])
wakeup_rounds ch current c i (p ∷ ps) = do
  c1 ← myproc c
  (c2, p') ← wakeup_slot ch (is_cpu current i) c1 p
  (c3, ps') ← wakeup_rounds ch current c2 (i + 1) ps
  ok (c3, p' ∷ ps')

unfoldable pub wakeup : Chan → Kernel → Outcome Kernel
unfolding wakeup_rounds
wakeup ch s = do
  (c, ps) ← wakeup_rounds ch s.current s.cpu 0 s.procs
  ok (record s { cpu = c; procs = ps })

-- What `kill` does to its victim.
unfoldable pub victim : Proc → Proc
victim p = record p { killed = true; state = if is_sleeping p.state then runnable else p.state }

-- The loop of `kill`, and whether it finds a victim.
unfoldable pub kill_rounds : ℕ → Cpu → List Proc → Outcome (Bool × Cpu × List Proc)
unfolding victim
kill_rounds pid c [] = ok (false, c, [])
kill_rounds pid c (p ∷ ps) = do
  (c1, lk) ← acquire c p.lock
  (c2, lk') ← release c1 lk
  if p.pid == pid then ok (true, c2, record (victim p) { lock = lk' } ∷ ps) else do
    (found, c3, ps') ← kill_rounds pid c2 ps
    ok (found, c3, record p { lock = lk' } ∷ ps')

-- `kill`, and whether it returns 0 rather than -1.
unfoldable pub kill : ℕ → Kernel → Outcome (Bool × Kernel)
unfolding kill_rounds
kill pid s = do
  (found, c, ps) ← kill_rounds pid s.cpu s.procs
  ok (found, record s { cpu = c; procs = ps })

-- What `freeproc` leaves of a slot.
unfoldable pub cleared : Proc → Proc
cleared p = record p {
  trapframe = none;
  pagetable = none;
  sz = 0;
  pid = 0;
  parent = none;
  name = set p.name 0 0;
  chan = null;
  killed = false;
  xstate = 0;
  state = unused;
}

-- What `freeproc` hands back, the last first.
unfoldable pub handed_back : Proc → List Freed
handed_back p =
    elim p.pagetable [ none ↦ [] | some pt ↦ Freed.table pt p.sz ∷ [] ]
    ++ elim p.trapframe [ none ↦ [] | some tf ↦ Freed.page tf ∷ [] ]

-- The loop of `allocproc` from slot `i` on: the first unused slot, with its lock held.
unfoldable pub find_unused : Cpu → ℕ → List Proc → Outcome (Option ℕ × Cpu × List Proc)
find_unused c i [] = ok (none, c, [])
find_unused c i (p ∷ ps) = do
  (c1, lk) ← acquire c p.lock
  if is_unused p.state then ok (some i, c1, record p { lock = lk } ∷ ps) else do
    (c2, lk') ← release c1 lk
    (found, c3, ps') ← find_unused c2 (i + 1) ps
    ok (found, c3, record p { lock = lk' } ∷ ps')

-- `freeproc(p); release(&p->lock); return 0;` of `allocproc`.
unfoldable pub give_up : ℕ → Proc → Kernel → Outcome (Option ℕ × Kernel)
unfolding cleared handed_back
give_up i p s = do
  (c, lk) ← release s.cpu p.lock
  ok (
    none,
    record s {
      cpu = c;
      procs = set s.procs i (record (cleared p) { lock = lk });
      freed = handed_back p ++ s.freed;
    },
  )

-- `allocproc` from `found` on, at slot `i` that holds `p`. `kalloc` and `proc_pagetable` return
-- `trapframe` and `pagetable`.
unfoldable pub found : Option ℕ → Option ℕ → ℕ → ℕ → Proc → Kernel → Outcome (Option ℕ × Kernel)
unfolding allocpid give_up
found trapframe pagetable forkret i p s = do
  (pid, s') ← allocpid s
  let p1 = record p { pid = pid; state = used; trapframe = trapframe }
  elim trapframe [
    | none ↦ give_up i p1 s'
    | some tf ↦ elim pagetable [
      | none ↦ give_up i (record p1 { pagetable = none }) s'
      | some pt ↦ ok (
        some i,
        record s' {
          procs =
              set s'.procs i
                (record p1 { pagetable = some pt; ra = forkret; sp = p.kstack + pgsize });
        },
      )
    ]
  ]

-- `allocproc`: the slot that it returns with the slot's lock held, or the null pointer.
unfoldable pub allocproc : Option ℕ → Option ℕ → ℕ → Kernel → Outcome (Option ℕ × Kernel)
unfolding find_unused found
allocproc trapframe pagetable forkret s = do
  (at, c, ps) ← find_unused s.cpu 0 s.procs
  let s' = record s { cpu = c; procs = ps }
  elim at [
    | none ↦ ok (none, s')
    | some i ↦ elim (get_elem? ps i) [
      | none ↦ blocked
      | some p ↦ found trapframe pagetable forkret i p s'
    ]
  ]
