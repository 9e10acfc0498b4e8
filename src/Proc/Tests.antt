-- ===== src/Proc/Tests.antt =====
-- Runs of kernel/proc.c at a concrete table.
use os_project_cs.Prelude.{ℕ, refl, true, false, [], ◌∷◌, Option, none, some, inl, inr, arith}
use os_project_cs.Spinlock.{Cpu, push_off}
use os_project_cs.Spinlock.Section.{unlocked}
use os_project_cs.Proc.{Proc, Kernel, ProcState, Chan, allocproc}
use os_project_cs.Proc.Exit.Ends.{Exited, exit-Exited}
use os_project_cs.Proc.Quiet.{Quiet}
use os_project_cs.Proc.Wakeup.{Woke, wakeup-Woke}
use os_project_cs.Proc.Kill.{KillEnd, kill-KillEnd}
use os_project_cs.Proc.Alloc.{Allocation, allocproc-Allocation}
use os_project_cs.Proc.Pids.{PidsOk, Unique, Reach-PidsOk, here, after, wakes}
use os_project_cs.Proc.KillUnused.{BornKilled, kill_zero}
use os_project_cs.Proc.Wait.{wait}
use os_project_cs.Proc.Wait.Ends.{Waited, wait-Waited}

abbrev slot_with : ProcState → Chan → ℕ → Option ℕ → Proc
slot_with st ch pid parent = record {
  lock = unlocked;
  state = st;
  chan = ch;
  killed = false;
  xstate = 0;
  pid = pid;
  parent = parent;
  kstack = 4096;
  sz = 0;
  pagetable = none;
  trapframe = none;
  ra = 0;
  sp = 0;
  name = 0 ∷ [];
}

abbrev first_proc : Proc
first_proc = slot_with ProcState.sleeping (Chan.slot 0) 1 none

abbrev parent_proc : Proc
parent_proc = slot_with ProcState.running Chan.null 2 (some 0)

abbrev child : Proc
child = slot_with ProcState.zombie Chan.null 3 (some 1)

abbrev hart : Cpu
hart = record { id = 0; noff = 0; intena = false; intr = true }

-- The second slot runs; the third is its child, and the fourth is unused.
abbrev busy : Kernel
busy = record {
  cpu = hart;
  current = some 1;
  procs = first_proc ∷ parent_proc ∷ child ∷ slot_with ProcState.unused Chan.null 0 none ∷ [];
  initproc = 0;
  nextpid = 4;
  pid_lock = unlocked;
  wait_lock = unlocked;
  freed = [];
}

busy-Quiet : Quiet busy
busy-Quiet = record {
  settled = refl;
  slots = (refl, (refl, (refl, (refl, tt))));
  pids = refl;
  waits = refl;
}

wakeup-Woke_example : Woke (Chan.slot 0) busy
wakeup-Woke_example = wakeup-Woke (Chan.slot 0) busy busy-Quiet.settled busy-Quiet.slots

kill-KillEnd_example : KillEnd 1 busy
kill-KillEnd_example = kill-KillEnd 1 busy busy-Quiet

allocproc-Allocation_example :
    Allocation (some 8192) (some 12288) 77 busy (allocproc (some 8192) (some 12288) 77 busy)
allocproc-Allocation_example = allocproc-Allocation (some 8192) (some 12288) 77 busy busy-Quiet

kill_zero_example : BornKilled 8192 12288 77 busy 3
kill_zero_example =
    kill_zero 8192 12288 77 busy (first_proc ∷ parent_proc ∷ child ∷ [])
      (slot_with ProcState.unused Chan.null 0 none) [] busy-Quiet refl (refl, (refl, (refl, tt)))
      ((λ e. omega arith), ((λ e. omega arith), ((λ e. omega arith), tt))) refl refl

wait-Waited_example : Waited 1 true busy parent_proc (wait 1 true busy)
wait-Waited_example = wait-Waited 1 true busy parent_proc busy-Quiet refl refl

-- The hart inside a critical section.
abbrev inside : Kernel
inside = record busy { cpu = push_off hart }

busy-PidsOk : PidsOk busy
busy-PidsOk = record {
  positive = omega arith;
  below = (omega arith, (omega arith, (omega arith, (omega arith, tt))));
  distinct = (
    inr ((λ e. omega arith), ((λ e. omega arith), ((λ e. omega arith), tt))),
    (
      inr ((λ e. omega arith), ((λ e. omega arith), tt)),
      (inr ((λ e. omega arith), tt), (inl refl, tt)),
    ),
  );
  named = (
    (λ e. absurd (omega arith)),
    ((λ e. absurd (omega arith)), ((λ e. absurd (omega arith)), ((λ e. refl), tt))),
  );
}

-- The process that waits on the first slot is woken, then another write.
woken_busy : Woke (Chan.slot 0) busy
woken_busy = wakeup-Woke (Chan.slot 0) busy busy-Quiet.settled busy-Quiet.slots

abbrev later : Kernel
later = record busy { cpu = woken_busy.last; procs = woken_busy.procs }

Reach-PidsOk_example : PidsOk later × Unique later.procs
Reach-PidsOk_example =
    Reach-PidsOk (after (wakes (Chan.slot 0) busy-Quiet woken_busy.runs) here) busy-PidsOk

exit-Exited_example : Exited 1 7 busy parent_proc
exit-Exited_example =
    exit-Exited 1 7 busy parent_proc busy-Quiet refl refl (λ e. omega arith) refl refl
