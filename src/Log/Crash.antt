-- ===== src/Log/Crash.antt =====
-- Crashes of kernel/log.c: a commit that stops anywhere, then recoveries that stop anywhere, then one
-- that the power lasts for.
use os_project_cs.Prelude.{
  ℕ, ◌≤◌, ◌<◌, ◌≡◌, ◌⊎◌, inl, inr, refl, false, List, [], ◌∷◌, arith, ◌∙◌, none, sym,
}
use os_project_cs.Outcome.{ok}
use os_project_cs.Spinlock.{Cpu, initlock}
use os_project_cs.Log.{Block, Log, initlog, commit, recover_from_log}
use os_project_cs.Log.Replay.{durable, IsHome}
use os_project_cs.Log.Durable.{IsReplayable}
use os_project_cs.Log.Clear.{Recovered}
use os_project_cs.Log.Recover.{recover_from_log-Recovered}
use os_project_cs.Log.Commit.{IsReady, commit-Committed}

-- The state at power-up: nothing is left of the memory, and the cache reads from the disk.
abbrev pub powered_up : Cpu → ℕ → (ℕ → Block) → Log
powered_up cpu p d = record {
  cpu = cpu;
  lock = record { locked = false; cpu = none };
  start = 0;
  size = 0;
  outstanding = 0;
  committing = false;
  lh = record { n = 0; block = λ i. 0 };
  cache = record { buf = d; disk = d; pins = λ b. 0; power = p };
  wakeups = 0;
}

-- What `initlog` leaves on the disk.
unfoldable pub reboot : ℕ → ℕ → Cpu → ℕ → (ℕ → Block) → ℕ → Block
unfolding initlog
reboot start size cpu p d = elim (initlog start size (powered_up cpu p d)) [
  | ok l ↦ l.cache.disk
  | _ ↦ d
]

-- One reboot after the other, each with its own number of writes before the next crash.
unfoldable pub reboots : ℕ → ℕ → Cpu → List ℕ → (ℕ → Block) → ℕ → Block
unfolding reboot
reboots start size cpu [] d = d
reboots start size cpu (p ∷ ps) d = reboots start size cpu ps (reboot start size cpu p d)

module _ (start size : ℕ) (cpu : Cpu) where
  -- The log that `initlog` recovers.
  pub recovered : ℕ → (ℕ → Block) → Log
  unfolding initlock
  recovered p d = recover_from_log (record (powered_up cpu p d) {
    lock = initlock (powered_up cpu p d).lock;
    start = start;
    size = size;
  })

  initlog-recovered :
      (p : ℕ) (d : ℕ → Block) → initlog start size (powered_up cpu p d) ≡ ok (recovered p d)
  unfolding initlog recovered
  initlog-recovered p d = refl

  recovered-Recovered :
      (p : ℕ) (d : ℕ → Block)
      → IsReplayable start size d
      → Recovered start size (powered_up cpu p d).cache (recovered p d).cache
  unfolding recovered
  recovered-Recovered p d r = recover_from_log-Recovered _ r (λ b. refl)

  -- What the disk stands for survives any number of crashed recoveries.
  pub record Survived (d d' : ℕ → Block) : Type 0 where
    pub replayable : IsReplayable start size d'
    pub same : (b : ℕ) → IsHome start size b → durable start d' b ≡ durable start d b

  reboot-Survived :
      (p : ℕ) (d : ℕ → Block) → IsReplayable start size d → Survived d (reboot start size cpu p d)
  unfolding reboot recovered
  reboot-Survived p d r =
      let h = recovered-Recovered p d r in record { replayable = h.replayable; same = h.same }

  pub reboots-Survived :
      (ps : List ℕ) (d : ℕ → Block)
      → IsReplayable start size d
      → Survived d (reboots start size cpu ps d)
  unfolding reboots
  reboots-Survived [] d r = record { replayable = r; same = λ b home. refl }
  reboots-Survived (p ∷ ps) d r =
      let h = reboot-Survived p d r in
      let rest = reboots-Survived ps (reboot start size cpu p d) h.replayable in
      record { replayable = rest.replayable; same = λ b home. rest.same b home ∙ h.same b home }

-- What a process finds after the last reboot.
pub record Restored (l : Log) (cpu : Cpu) (p : ℕ) (d : ℕ → Block) : Type 0 where
  pub log : Log
  pub runs : initlog l.start l.size (powered_up cpu p d) ≡ ok log
  pub atomic :
      ((b : ℕ) → IsHome l.start l.size b → log.cache.buf b ≡ l.cache.disk b)
      ⊎ ((b : ℕ) → IsHome l.start l.size b → log.cache.buf b ≡ l.cache.buf b)
  pub on_disk : (b : ℕ) → IsHome l.start l.size b → log.cache.disk b ≡ log.cache.buf b
  pub ready : IsReady l.start l.size log.lh log.cache

recovered_empty :
    (start size : ℕ) (cpu : Cpu) (p : ℕ) (d : ℕ → Block) → (recovered start size cpu p d).lh.n ≡ 0
unfolding recovered recover_from_log
recovered_empty start size cpu p d = refl

carry :
    (l : Log) (d : ℕ → Block) (log : Log)
    → ((b : ℕ) → IsHome l.start l.size b → log.cache.buf b ≡ durable l.start d b)
    → ((b : ℕ) → IsHome l.start l.size b → durable l.start d b ≡ l.cache.disk b)
      ⊎ ((b : ℕ) → IsHome l.start l.size b → durable l.start d b ≡ l.cache.buf b)
    → ((b : ℕ) → IsHome l.start l.size b → log.cache.buf b ≡ l.cache.disk b)
      ⊎ ((b : ℕ) → IsHome l.start l.size b → log.cache.buf b ≡ l.cache.buf b)
carry l d log value (inl old) = inl (λ b home. value b home ∙ old b home)
carry l d log value (inr new) = inr (λ b home. value b home ∙ new b home)

-- Crash recovery. Let a commit of a non-empty transaction stop after any number of block writes, and
-- let any number of recoveries after it stop likewise. Then a recovery that has power for one write
-- for each block of the log succeeds, and processes then find, in every block outside the log, either
-- what was on disk before the commit or what processes had written, the same choice for all blocks.
-- Cache and disk agree, and the log is empty and ready for the next transaction.
pub crash_atomic :
    (l : Log) (cpu : Cpu) (ps : List ℕ) (p : ℕ)
    → IsReady l.start l.size l.lh l.cache
    → 0 < l.lh.n
    → l.size ≤ p
    → Restored l cpu p (reboots l.start l.size cpu ps (commit l).cache.disk)
crash_atomic l cpu ps p ready busy power =
    let s = l.start in
    let d = (commit l).cache.disk in
    let done = commit-Committed l ready busy in
    let kept = reboots-Survived s l.size cpu ps d done.replayable in
    let d' = reboots s l.size cpu ps d in
    let h = recovered-Recovered s l.size cpu p d' kept.replayable in
    let f = kept.replayable.fits in
    let lasts : d' s 0 < p = omega arith in
    let log = recovered s l.size cpu p d' in
    let value : (b : ℕ) → IsHome s l.size b → log.cache.buf b ≡ durable s d b =
      λ b home. (h.finished lasts b home).1 ∙ (h.finished lasts b home).0 ∙ kept.same b home in
    record {
      log = log;
      runs = initlog-recovered s l.size cpu p d';
      atomic = carry l d log value done.atomic;
      on_disk = λ b home. sym (h.finished lasts b home).1;
      ready = record {
        fits = rw (recovered_empty s l.size cpu p d') (omega arith);
        homes = λ i. rw (recovered_empty s l.size cpu p d') (λ u. absurd (omega arith));
        empty = h.emptied lasts;
        clean = λ b home. inr (sym (h.finished lasts b home).1);
      };
    }
