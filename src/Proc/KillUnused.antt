-- ===== src/Proc/KillUnused.antt =====
-- `kill(0)` of kernel/proc.c, and the process that `allocproc` then starts.
use os_project_cs.Prelude.{
  ℕ, ◌≡◌, refl, ◌∙◌, true, false, List, [], ◌∷◌, ◌++◌, some, arith, ◌==◌, if◌then◌else◌, get_elem?,
  length, subst,
}
use os_project_cs.Outcome.{ok}
use os_project_cs.Spinlock.{Cpu}
use os_project_cs.Spinlock.Nesting.{IsSettled}
use os_project_cs.Spinlock.Section.{after, release_held}
use os_project_cs.Proc.{
  Proc, Kernel, ProcState, unused, used, sleeping, runnable, running, zombie, is_sleeping,
  is_unused, victim, kill_rounds, kill, allocproc,
}
use os_project_cs.Proc.Quiet.{AllFree, Quiet, acquire_slot, after-after}
use os_project_cs.Proc.Kill.{Absent}
use os_project_cs.Proc.Alloc.{AllLive, allocproc_takes, get_elem?-middle, started}

kill_found :
    (pid : ℕ) (c : Cpu) (before : List Proc) (p : Proc) (rest : List Proc)
    → IsSettled c
    → AllFree (before ++ p ∷ rest)
    → Absent pid before
    → p.pid ≡ pid
    → kill_rounds pid c (before ++ p ∷ rest) ≡ ok (true, after c, before ++ victim p ∷ rest)
unfolding kill_rounds victim
kill_found pid c [] p rest h (e, f) a is =
    let same : (p.pid == pid) ≡ true = ground arith in
    rw (acquire_slot c p.lock e, release_held c h, same, ← e) refl
kill_found pid c (b ∷ before) p rest h (e, f) (ne, a) is =
    let other : (b.pid == pid) ≡ false = ground arith in
    rw
      (
        acquire_slot c b.lock e,
        release_held c h,
        other,
        kill_found pid (after c) before p rest h f a is,
        after-after c,
        ← e,
      )
      refl

AllFree-middle :
    (xs : List Proc) (p q : Proc) (ys : List Proc)
    → q.lock ≡ p.lock
    → AllFree (xs ++ p ∷ ys)
    → AllFree (xs ++ q ∷ ys)
AllFree-middle [] p q ys e (u, f) = (e ∙ u, f)
AllFree-middle (x ∷ xs) p q ys e (u, f) = (u, AllFree-middle xs p q ys e f)

still_unused :
    (st : ProcState)
    → is_unused st ≡ true
    → is_unused (if is_sleeping st then ProcState.runnable else st) ≡ true
still_unused unused h = h
still_unused used h = h
still_unused sleeping h = h
still_unused runnable h = h
still_unused running h = h
still_unused zombie h = h

-- The end of `kill(0)` followed by `allocproc`.
pub record BornKilled (tf pt forkret : ℕ) (s : Kernel) (i : ℕ) : Type 0 where
  pub middle : Kernel
  pub last : Kernel
  pub born : Proc
  pub kills : kill 0 s ≡ ok (true, middle)
  pub allocates : allocproc (some tf) (some pt) forkret middle ≡ ok (some i, last)
  pub there : get_elem? last.procs i ≡ some born
  pub killed : born.killed ≡ true

-- `kill(0)` does not fail if there is an unused slot, since such a slot has the pid 0: it marks the
-- first one as killed. `allocproc` does not clear the mark, so that the next process, which gets this
-- slot, is killed from the start.
pub kill_zero :
    (tf pt forkret : ℕ) (s : Kernel) (before : List Proc) (p : Proc) (rest : List Proc)
    → Quiet s
    → s.procs ≡ before ++ p ∷ rest
    → AllLive before
    → Absent 0 before
    → is_unused p.state ≡ true
    → p.pid ≡ 0
    → BornKilled tf pt forkret s (length before)
unfolding kill victim
kill_zero tf pt forkret s before p rest q e live absent free_slot zero_pid =
    let all = subst AllFree e q.slots in
    let marked = kill_found 0 s.cpu before p rest q.settled all absent zero_pid in
    let s' : Kernel = record s { cpu = after s.cpu; procs = before ++ victim p ∷ rest } in
    let still : is_unused (victim p).state ≡ true = still_unused p.state free_slot in
    let q' : Quiet s' = record {
      settled = q.settled;
      slots = AllFree-middle before p (victim p) rest refl all;
      pids = q.pids;
      waits = q.waits;
    } in
    record {
      middle = s';
      last = _;
      born = started tf pt forkret s' (victim p);
      kills = rw (e, marked) refl;
      allocates = allocproc_takes tf pt forkret s' q' before (victim p) rest refl live still;
      there = get_elem?-middle before (started tf pt forkret s' (victim p)) rest;
      killed = refl;
    }
