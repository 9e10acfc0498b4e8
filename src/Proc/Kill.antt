-- ===== src/Proc/Kill.antt =====
-- `kill` of kernel/proc.c: the first slot with the pid, and no other.
use os_project_cs.Prelude.{
  ℕ, ◌≡◌, ◌≢◌, refl, Bool, true, false, List, [], ◌∷◌, ◌++◌, arith, ◌==◌, if◌then◌else◌, ℕ_discrete,
}
use os_project_cs.Outcome.{Outcome, ok}
use os_project_cs.Spinlock.{Cpu}
use os_project_cs.Spinlock.Nesting.{IsSettled}
use os_project_cs.Spinlock.Section.{after, release_held}
use os_project_cs.Proc.{Proc, Kernel, runnable, is_sleeping, victim, kill_rounds, kill}
use os_project_cs.Proc.Quiet.{AllFree, Quiet, Back, Back-same, Back-once, Back-after, acquire_slot}

-- The pid is that of no slot.
abbrev pub Absent : ℕ → List Proc → Type 0
Absent pid [] = Unit
Absent pid (p ∷ ps) = (p.pid ≢ pid) × Absent pid ps

-- The first slot with the pid is killed, and woken if it sleeps; without one nothing changes.
pub data Killing (pid : ℕ) : Bool → List Proc → List Proc → Type 0 where
  nobody : {ps : List Proc} → Absent pid ps → Killing pid false ps ps
  first_of :
      (before : List Proc) (p : Proc) (rest : List Proc)
      → Absent pid before
      → p.pid ≡ pid
      → Killing pid true (before ++ p ∷ rest) (
          before
          ++ record p { killed = true; state = if is_sleeping p.state then runnable else p.state }
            ∷ rest)

Killing-more :
    (pid : ℕ) (b : Bool) (p : Proc) (ps qs : List Proc)
    → p.pid ≢ pid
    → Killing pid b ps qs
    → Killing pid b (p ∷ ps) (p ∷ qs)
Killing-more pid _ p _ _ ne (nobody a) = nobody (ne, a)
Killing-more pid _ p _ _ ne (first_of before q rest a e) = first_of (p ∷ before) q rest (ne, a) e

-- How `kill` ends.
pub record Killed (pid : ℕ) (c : Cpu) (ps : List Proc) (out : Outcome (Bool × Cpu × List Proc))
    : Type 0 where
  pub last : Cpu
  pub done : Bool
  pub procs : List Proc
  pub runs : out ≡ ok (done, last, procs)
  pub back : Back c last
  pub free : AllFree procs
  pub kills : Killing pid done ps procs

rounds :
    (pid : ℕ) (c : Cpu) (ps : List Proc)
    → IsSettled c
    → AllFree ps
    → Killed pid c ps (kill_rounds pid c ps)
unfolding kill_rounds victim
rounds pid c [] h f = record {
  last = c;
  done = false;
  procs = [];
  runs = refl;
  back = Back-same c h;
  free = tt;
  kills = nobody tt;
}
rounds pid c (p ∷ ps) h (e, f) = elim (ℕ_discrete p.pid pid) [
  | yes is ↦ record {
    last = after c;
    done = true;
    procs = victim p ∷ ps;
    runs =
        let same : (p.pid == pid) ≡ true = ground arith in
        rw (acquire_slot c p.lock e, release_held c h, same, ← e);
    back = Back-once c h;
    free = (e, f);
    kills = first_of [] p ps tt is;
  }
  | no isnt ↦
      let r = rounds pid (after c) ps h f in
      record {
        last = r.last;
        done = r.done;
        procs = p ∷ r.procs;
        runs =
            let other : (p.pid == pid) ≡ false = ground arith in
            rw (acquire_slot c p.lock e, release_held c h, other, r.runs, ← e);
        back = Back-after r.back;
        free = (e, r.free);
        kills = Killing-more pid r.done p ps r.procs isnt r.kills;
      }
]

-- The state after `kill`, and whether it returns 0.
pub record KillEnd (pid : ℕ) (s : Kernel) : Type 0 where
  pub last : Cpu
  pub done : Bool
  pub procs : List Proc
  pub runs : kill pid s ≡ ok (done, record s { cpu = last; procs = procs })
  pub back : Back s.cpu last
  pub free : AllFree procs
  pub kills : Killing pid done s.procs procs

-- With every lock free, `kill` returns 0 if some slot has the pid and -1 if none has. The first slot
-- that has it is marked as killed, and made runnable if it sleeps; nothing else changes, and every
-- lock is free again.
pub kill-KillEnd : (pid : ℕ) (s : Kernel) → Quiet s → KillEnd pid s
unfolding kill
kill-KillEnd pid s q =
    let r = rounds pid s.cpu s.procs q.settled q.slots in
    record {
      last = r.last;
      done = r.done;
      procs = r.procs;
      runs = rw r.runs;
      back = r.back;
      free = r.free;
      kills = r.kills;
    }
