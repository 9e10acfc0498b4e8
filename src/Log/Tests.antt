-- ===== src/Log/Tests.antt =====
-- Runs of kernel/log.c at concrete states.
use os_project_cs.Prelude.{
  ℕ, ◌+◌, ◌≡◌, ◌⊎◌, inl, inr, refl, true, false, List, [], ◌∷◌, ◌++◌, none, arith, ◌==◌,
  if◌then◌else◌, ℕ_discrete, update,
}
use os_project_cs.Outcome.{Message, panic}
use os_project_cs.Spinlock.{Cpu, acquire, release}
use os_project_cs.Spinlock.Section.{IsFree}
use os_project_cs.Log.{Block, Log, commit, begin_op, log_write, recover_from_log}
use os_project_cs.Log.Replay.{durable, IsHome}
use os_project_cs.Log.Durable.{IsReplayable}
use os_project_cs.Log.Recover.{recover_resumes, recover_completes}
use os_project_cs.Log.Commit.{IsReady, commit_atomic, commit_completes}
use os_project_cs.Log.Crash.{Restored, powered_up, reboots, crash_atomic}
use os_project_cs.Log.Absorb.{Changed, log_write-Changed}
use os_project_cs.Log.Capacity.{Filled, write_all, write_all-Filled}
use os_project_cs.Log.Running.{Committer, Event, Running, Keeps, happen_all}
use os_project_cs.Log.Space.{happen_all-Keeps}

abbrev hart : Cpu
hart = record { id = 0; noff = 0; intena = false; intr = true }

abbrev clear : Block
clear = λ i. 0

abbrev sevens : Block
sevens = λ i. 7

-- One running operation has changed block 50 and logged it; `p` writes are left before a crash.
abbrev changed : ℕ → Log
changed p = record {
  cpu = hart;
  lock = record { locked = false; cpu = none };
  start = 2;
  size = 31;
  outstanding = 1;
  committing = false;
  lh = record { n = 1; block = λ i. 50 };
  cache = record {
    buf = update (λ b. clear) 50 sevens;
    disk = λ b. clear;
    pins = λ b. if b == 50 then 1 else 0;
    power = p;
  };
  wakeups = 0;
}

is_free : IsFree hart (record { locked = false; cpu = none })
is_free = record { settled = refl; unlocked = refl; unowned = refl }

changed-IsReady : (p : ℕ) → IsReady 2 31 (changed p).lh (changed p).cache
changed-IsReady p = record {
  fits = omega arith;
  homes = λ i u. inr (omega arith);
  empty = refl;
  clean = λ b home. elim (ℕ_discrete 50 b) [
    | yes here ↦ inl (ground arith)
    | no other ↦ inr (ground arith)
  ];
}

-- The commit stops after the header, the first recovery before its first write.
crash_atomic_example :
    Restored (changed 2) hart 31 (reboots 2 31 hart (0 ∷ []) (commit (changed 2)).cache.disk)
crash_atomic_example =
    crash_atomic (changed 2) hart (0 ∷ []) 31 (changed-IsReady 2) (omega arith) (omega arith)

commit_atomic_example :
    let c = (commit (changed 1)).cache in
    IsReplayable 2 31 c.disk
    × (((b : ℕ) → IsHome 2 31 b → durable 2 c.disk b ≡ clear)
        ⊎ ((b : ℕ) → IsHome 2 31 b → durable 2 c.disk b ≡ (changed 1).cache.buf b))
    × ((b : ℕ) → IsHome 2 31 b → c.buf b ≡ (changed 1).cache.buf b)
commit_atomic_example = commit_atomic (changed 1) (changed-IsReady 1) (omega arith)

commit_completes_example :
    let m = commit (changed 4) in
    ((b : ℕ) → IsHome 2 31 b → m.cache.disk b ≡ (changed 4).cache.buf b) × IsReady 2 31 m.lh m.cache
commit_completes_example =
    commit_completes (changed 4) (changed-IsReady 4) (omega arith) (omega arith)

-- A disk whose log holds a committed write of sevens to block 50.
abbrev committed_disk : ℕ → Block
committed_disk =
    update (update (λ b. clear) 2 (λ i. if i == 0 then 1 else if i == 1 then 50 else 0)) 3 sevens

abbrev booting : ℕ → Log
booting p = record (powered_up hart p committed_disk) { start = 2; size = 31 }

replayable : IsReplayable 2 31 committed_disk
replayable = record { fits = omega arith; homes = λ i u. inr (ground arith) }

recover_completes_example :
    let c = (recover_from_log (booting 2)).cache in
    ((b : ℕ) → IsHome 2 31 b → (c.disk b ≡ durable 2 committed_disk b) × (c.buf b ≡ c.disk b))
    × (c.disk 2 0 ≡ 0)
recover_completes_example = recover_completes (booting 2) replayable (λ b. refl) (omega arith)

recover_resumes_example :
    let d = (recover_from_log (booting 1)).cache.disk in
    IsReplayable 2 31 d × ((b : ℕ) → IsHome 2 31 b → durable 2 d b ≡ durable 2 committed_disk b)
recover_resumes_example = recover_resumes (booting 1) replayable (λ b. refl)

log_write-Changed_example : Changed 60 sevens (changed 9)
log_write-Changed_example =
    log_write-Changed 60 sevens (changed 9) is_free (changed-IsReady 9) (inr (omega arith))
      (omega arith) (omega arith) (omega arith)

-- No operation runs.
abbrev quiet : ℕ → Running
quiet size = record {
  log = record (changed 0) { size = size; outstanding = 0; lh = record { n = 0; block = λ i. 0 } };
  quotas = [];
  committer = Committer.nobody;
}

abbrev events : List Event
events =
    Event.start
    ∷ Event.start
    ∷ Event.write 0 50
    ∷ Event.start
    ∷ Event.start
    ∷ Event.write 1 51
    ∷ Event.finish 0
    ∷ Event.finish 0
    ∷ Event.finish 0
    ∷ Event.start
    ∷ Event.write_out
    ∷ Event.reopen
    ∷ Event.start
    ∷ []

happen_all-Keeps_example : Keeps (happen_all events (quiet 31))
happen_all-Keeps_example = happen_all-Keeps events (quiet 31) (record {
  free = is_free;
  told = refl;
  alone = λ t. refl;
  counted = refl;
  bounded = tt;
  reserved = omega arith;
  large = omega arith;
})

-- Three operations that each log ten blocks of their own are let in, and the last write panics.
abbrev ten_writes : ℕ → ℕ → List Event
ten_writes j b =
    Event.write j b
    ∷ Event.write j (b + 1)
    ∷ Event.write j (b + 2)
    ∷ Event.write j (b + 3)
    ∷ Event.write j (b + 4)
    ∷ Event.write j (b + 5)
    ∷ Event.write j (b + 6)
    ∷ Event.write j (b + 7)
    ∷ Event.write j (b + 8)
    ∷ Event.write j (b + 9)
    ∷ []

mkfs_log_overflows :
    happen_all
      (Event.start
        ∷ Event.start
        ∷ Event.start
        ∷ (ten_writes 0 50 ++ (ten_writes 1 60 ++ ten_writes 2 70)))
      (quiet 30)
    ≡ panic Message.too_big_a_transaction
unfolding happen_all begin_op log_write acquire release
mkfs_log_overflows = refl

-- The log of 30 blocks that mkfs makes, with 28 blocks logged.
abbrev tight : Log
tight = record (changed 0) { size = 30; lh = record { n = 28; block = λ i. i + 50 } }

write_all-Filled_example : Filled (90 ∷ 91 ∷ []) tight (write_all (90 ∷ 91 ∷ []) tight)
write_all-Filled_example =
    write_all-Filled (90 ∷ 91 ∷ []) tight is_free (omega arith) (omega arith) (omega arith)
      ((λ i l e. omega arith), (((λ e. omega arith), tt), ((λ i l e. omega arith), (tt, tt))))
