-- ===== src/Sleeplock/Tests.antt =====
-- Runs of kernel/sleeplock.c at a concrete table of processes.
use os_project_cs.Prelude.{ℕ, refl, true, false, [], ◌∷◌, none, some}
use os_project_cs.Spinlock.{Cpu}
use os_project_cs.Spinlock.Section.{unlocked}
use os_project_cs.Proc.{Proc, Kernel, ProcState, Chan}
use os_project_cs.Proc.Quiet.{Quiet}
use os_project_cs.Sleeplock.Owner.{lock_of, Released, releasesleep-Released}

abbrev proc_with : ProcState → Chan → ℕ → Proc
proc_with st ch pid = record {
  lock = unlocked;
  state = st;
  chan = ch;
  killed = false;
  xstate = 0;
  pid = pid;
  parent = none;
  kstack = 4096;
  sz = 0;
  pagetable = none;
  trapframe = none;
  ra = 0;
  sp = 0;
  name = 0 ∷ [];
}

abbrev hart : Cpu
hart = record { id = 0; noff = 0; intena = false; intr = true }

abbrev sleeper : Proc
sleeper = proc_with ProcState.sleeping (Chan.address 500) 7

abbrev runner : Proc
runner = proc_with ProcState.running Chan.null 8

abbrev two_procs : Kernel
two_procs = record {
  cpu = hart;
  current = some 1;
  procs = sleeper ∷ runner ∷ [];
  initproc = 0;
  nextpid = 9;
  pid_lock = unlocked;
  wait_lock = unlocked;
  freed = [];
}

two_procs-Quiet : Quiet two_procs
two_procs-Quiet = record { settled = refl; slots = (refl, (refl, tt)); pids = refl; waits = refl }

releasesleep-Released_example : Released 500 (lock_of true 8) two_procs
releasesleep-Released_example = releasesleep-Released 500 true 8 two_procs two_procs-Quiet
