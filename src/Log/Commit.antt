-- ===== src/Log/Commit.antt =====
-- `commit` of kernel/log.c, run to its end or stopped at any of its writes.
use os_project_cs.Prelude.{
  ℕ, ◌+◌, ◌*◌, ◌≤◌, ◌<◌, ◌≡◌, ◌⊎◌, inl, inr, refl, true, false, update, arith, ◌∙◌, sym, dec_lt, ap,
  ==_ne, ==_refl, lt→ltb,
}
use os_project_cs.Log.{Block, Cache, LogHeader, Log, install_trans, write_head, write_log, commit}
use os_project_cs.Log.Replay.{replay, hits, durable, log_block, IsHome, replay-ext, replay-value}
use os_project_cs.Log.Steps.{
  OutsideLog, Logged, Headed, Installed, write_disk_off, write_disk_on, write_head-Headed,
  write_log-Logged, install_trans-Installed,
}
use os_project_cs.Log.Durable.{
  IsReplayable, apart, hits-home, hits-ext, durable_same, durable_empty,
}
use os_project_cs.Log.Clear.{Copied, Copied-Recovered}

-- The log between commits: the transaction fits and names home blocks, the log on disk is empty, and
-- the cache differs from the disk at most at blocks of the transaction.
pub record IsReady (start size : ℕ) (lh : LogHeader) (c : Cache) : Type 0 where
  pub fits : lh.n < size
  pub homes : (i : ℕ) → i < lh.n → IsHome start size (lh.block i)
  pub empty : c.disk start 0 ≡ 0
  pub clean : (b : ℕ) → IsHome start size b → (hits lh.block lh.n 0 b ≡ true) ⊎ (c.disk b ≡ c.buf b)

-- What a commit leaves.
pub record Committed (start size : ℕ) (lh : LogHeader) (c c' : Cache) : Type 0 where
  pub replayable : IsReplayable start size c'.disk
  pub atomic :
      ((b : ℕ) → IsHome start size b → durable start c'.disk b ≡ c.disk b)
      ⊎ ((b : ℕ) → IsHome start size b → durable start c'.disk b ≡ c.buf b)
  pub buf : (b : ℕ) → IsHome start size b → c'.buf b ≡ c.buf b
  pub finished : lh.n * 2 + 2 ≤ c.power → (b : ℕ) → IsHome start size b → c'.disk b ≡ c.buf b
  pub emptied : lh.n * 2 + 2 ≤ c.power → c'.disk start 0 ≡ 0

module _ (start size : ℕ) (lh : LogHeader) (c : Cache) (ready : IsReady start size lh c) where
  -- The caches after `write_log`, `write_head`, `install_trans` and the second `write_head`.
  record Phases (c1 c2 c3 c4 : Cache) : Type 0 where
    logged : Logged start lh lh.n 0 c c1
    headed : Headed start lh c1 c2
    installed : Installed start lh (λ i. c.buf (lh.block i)) lh.n 0 c2 c3
    cleared : Headed start (record lh { n = 0 }) c3 c4

  outside : (i : ℕ) → 0 ≤ i → i < 0 + lh.n → OutsideLog start 0 lh.n (lh.block i)
  outside i l u = ground (arith, ready.homes i, ready.fits)

  abbrev run1 : Cache
  run1 = write_log start lh lh.n 0 c

  abbrev run2 : Cache
  run2 = write_head start lh run1

  abbrev run3 : Cache
  run3 = install_trans false start lh lh.n 0 run2

  phases : Phases run1 run2 run3 (write_head start (record lh { n = 0 }) run3)
  phases =
      let logged : Logged start lh lh.n 0 c run1 = write_log-Logged start lh lh.n 0 c outside in
      let headed : Headed start lh run1 run2 = write_head-Headed start lh run1 in
      record {
        logged = logged;
        headed = headed;
        installed =
            install_trans-Installed start lh false (λ i. c.buf (lh.block i)) lh.n 0 run2 outside
              (λ i l u.
                headed.buf (start + i + 1)
                ∙ rw (==_ne start (start + i + 1) (omega arith)) (logged.copied i l u));
        cleared = write_head-Headed start (record lh { n = 0 }) run3;
      }

  home-outside : (b : ℕ) → IsHome start size b → OutsideLog start 0 lh.n b
  home-outside b home = ground (arith, ready.fits)

  module _ {c1 c2 c3 c4 : Cache} (ph : Phases c1 c2 c3 c4) where
    open ph use {logged, headed, installed, cleared}

    buf2 : (b : ℕ) → IsHome start size b → c2.buf b ≡ c.buf b
    buf2 b home =
        headed.buf b
        ∙ rw (==_ne start b (apart start size b ready.fits home))
            (logged.buf b (home-outside b home))

    -- The data that processes see does not change.
    buf3 : (b : ℕ) → IsHome start size b → c3.buf b ≡ c.buf b
    buf3 b home =
        installed.buf b
        ∙ replay-value lh.block (λ i. c.buf (lh.block i)) c.buf lh.n 0 c2.buf b (λ i l u. refl)
            (inr (buf2 b home))

    buf4 : (b : ℕ) → IsHome start size b → c4.buf b ≡ c.buf b
    buf4 b home =
        cleared.buf b ∙ rw (==_ne start b (apart start size b ready.fits home)) (buf3 b home)

    -- The machine stops before the header is written.
    before : c1.power ≡ 0 → Committed start size lh c c4
    before off =
        let p1 = logged.power in
        let p2 = headed.power in
        let p3 = installed.power in
        let f = ready.fits in
        let disk : (b : ℕ) → c4.disk b ≡ c1.disk b = λ b.
          cleared.disk b
          ∙ write_disk_off c3.power c3.disk start cleared.header b (omega arith)
          ∙ installed.stopped (omega arith) b
          ∙ headed.disk b
          ∙ write_disk_off c1.power c1.disk start headed.header b off in
        let empty : c4.disk start 0 ≡ 0 =
          ap (λ (x : Block). x 0) (disk start ∙ logged.disk start (inl (omega arith)))
          ∙ ready.empty in
        record {
          replayable = record { fits = omega arith; homes = λ i u. absurd (omega arith) };
          atomic = inl λ b home.
              durable_empty start c4.disk b empty ∙ disk b ∙ logged.disk b (home-outside b home);
          buf = buf4;
          finished = λ w. absurd (omega arith);
          emptied = λ w. empty;
        }

    module _ (on : 0 < c1.power) where
      disk2 : (b : ℕ) → c2.disk b ≡ update c1.disk start headed.header b
      disk2 b = headed.disk b ∙ write_disk_on c1.power c1.disk start headed.header b on

      header2 : c2.disk start ≡ headed.header
      header2 = disk2 start ∙ rw (==_refl start)

      count2 : c2.disk start 0 ≡ lh.n
      count2 = ap (λ (x : Block). x 0) header2 ∙ headed.count

      block2 : (i : ℕ) → 0 ≤ i → i < 0 + lh.n → c2.disk start (i + 1) ≡ lh.block i
      block2 i l u = ap (λ (x : Block). x (i + 1)) header2 ∙ headed.blocks i (omega arith)

      content2 : (i : ℕ) → i < lh.n → c2.disk (start + i + 1) ≡ c.buf (lh.block i)
      content2 i u =
          disk2 (start + i + 1)
          ∙ rw (==_ne start (start + i + 1) (omega arith))
              (logged.written (omega (arith, logged.power)) i (omega arith) (omega arith))

      home2 : (b : ℕ) → IsHome start size b → c2.disk b ≡ c.disk b
      home2 b home =
          disk2 b
          ∙ rw (==_ne start b (apart start size b ready.fits home))
              (logged.disk b (home-outside b home))

      replayable2 : IsReplayable start size c2.disk
      replayable2 = record {
        fits = omega (arith, count2, ready.fits);
        homes = λ i u.
            rw (block2 i (omega arith) (omega (arith, count2)))
              (ready.homes i (omega (arith, count2)));
      }

      -- The disk now stands for the transaction applied.
      replay2 :
          (b : ℕ)
          → durable start c2.disk b ≡ replay lh.block (λ i. c.buf (lh.block i)) lh.n 0 c2.disk b
      replay2 b =
          ap
            (λ (n : ℕ). replay (λ i. c2.disk start (i + 1)) (log_block start c2.disk) n 0 c2.disk b)
            count2
          ∙ replay-ext _ lh.block _ (λ i. c.buf (lh.block i)) lh.n 0 c2.disk b
              (λ i l u. (block2 i l u, content2 i (omega arith)))

      durable2 : (b : ℕ) → IsHome start size b → durable start c2.disk b ≡ c.buf b
      durable2 b home =
          replay2 b
          ∙ replay-value lh.block (λ i. c.buf (lh.block i)) c.buf lh.n 0 c2.disk b (λ i l u. refl)
              (clean2 (ready.clean b home))
        where
          clean2 :
              (hits lh.block lh.n 0 b ≡ true) ⊎ (c.disk b ≡ c.buf b)
              → (hits lh.block lh.n 0 b ≡ true) ⊎ (c2.disk b ≡ c.buf b)
          clean2 (inl hit) = inl hit
          clean2 (inr same) = inr (home2 b home ∙ same)

      log3 : (j : ℕ) → j < size → c3.disk (start + j) ≡ c2.disk (start + j)
      log3 j u = ground (
        arith,
        installed.partial (start + j),
        hits-home start size lh.block lh.n 0 (start + j) (λ i l v. ready.homes i (omega arith)),
      )

      partial3 :
          (b : ℕ)
          → (hits (λ i. c2.disk start (i + 1)) (c2.disk start 0) 0 b ≡ true)
            ⊎ (c3.disk b ≡ c2.disk b)
      partial3 b =
          rw (count2, hits-ext (λ i. c2.disk start (i + 1)) lh.block lh.n 0 b block2)
            (installed.partial b)

      copied3 : Copied start size c2 c3
      copied3 = record {
        log = log3;
        same = λ b. durable_same start size c2.disk c3.disk b replayable2 log3 (partial3 b);
        full = λ p b. installed.full (omega (arith, count2)) b ∙ sym (replay2 b);
        buf = λ b home. buf3 b home ∙ sym (durable2 b home);
        power = rw count2 (installed.power);
      }

      -- The header is written: the transaction is committed.
      past : Committed start size lh c c4
      past =
          let p1 = logged.power in
          let p2 = headed.power in
          let n = count2 in
          let r =
            Copied-Recovered start size c2 c3 c4 (record lh { n = 0 }) replayable2 copied3 cleared
              refl in
          record {
            replayable = r.replayable;
            atomic = inr λ b home. r.same b home ∙ durable2 b home;
            buf = buf4;
            finished = λ w b home. (r.finished (omega arith) b home).0 ∙ durable2 b home;
            emptied = λ w. r.emptied (omega arith);
          }

commit_none_left : (l : Log) → 0 < l.lh.n → (commit l).lh.n ≡ 0
unfolding commit
commit_none_left l busy = rw (lt→ltb 0 l.lh.n busy)

pub commit-Committed :
    (l : Log)
    → IsReady l.start l.size l.lh l.cache
    → 0 < l.lh.n
    → Committed l.start l.size l.lh l.cache (commit l).cache
unfolding commit
commit-Committed l ready busy = rw (lt→ltb 0 l.lh.n busy) (split (dec_lt 0 c1.power))
  where
    c1 : Cache
    c1 = write_log l.start l.lh l.lh.n 0 l.cache

    c2 : Cache
    c2 = write_head l.start l.lh c1

    c3 : Cache
    c3 = install_trans false l.start l.lh l.lh.n 0 c2

    c4 : Cache
    c4 = write_head l.start (record (l.lh) { n = 0 }) c3

    ph : Phases l.start l.size l.lh l.cache ready c1 c2 c3 c4
    ph = phases l.start l.size l.lh l.cache ready

    split : Dec (0 < c1.power) → Committed l.start l.size l.lh l.cache c4
    split (yes on) = past l.start l.size l.lh l.cache ready ph on
    split (no off) = before l.start l.size l.lh l.cache ready ph (omega arith)

-- A commit that stops after any number of its writes is atomic: once recovered, the disk holds either
-- every block outside the log as it was on disk before, or every such block as processes saw it in
-- the cache. The disk can be recovered, and processes go on to see the same blocks.
pub commit_atomic :
    (l : Log)
    → IsReady l.start l.size l.lh l.cache
    → 0 < l.lh.n
    → let c = (commit l).cache in
      IsReplayable l.start l.size c.disk
      × (((b : ℕ) → IsHome l.start l.size b → durable l.start c.disk b ≡ l.cache.disk b)
          ⊎ ((b : ℕ) → IsHome l.start l.size b → durable l.start c.disk b ≡ l.cache.buf b))
      × ((b : ℕ) → IsHome l.start l.size b → c.buf b ≡ l.cache.buf b)
commit_atomic l ready busy =
    let h = commit-Committed l ready busy in (h.replayable, h.atomic, h.buf)

-- A commit that the power lasts for (two writes for each logged block, and two headers) brings every
-- block outside the log to disk as processes saw it, and leaves a log that is ready for the next
-- transaction.
pub commit_completes :
    (l : Log)
    → IsReady l.start l.size l.lh l.cache
    → 0 < l.lh.n
    → l.lh.n * 2 + 2 ≤ l.cache.power
    → let m = commit l in
      ((b : ℕ) → IsHome l.start l.size b → m.cache.disk b ≡ l.cache.buf b)
      × IsReady l.start l.size m.lh m.cache
commit_completes l ready busy power =
    let h = commit-Committed l ready busy in
    let f = ready.fits in
    let n = commit_none_left l busy in
    (
      h.finished power,
      record {
        fits = omega arith;
        homes = λ i u. absurd (omega arith);
        empty = h.emptied power;
        clean = λ b home. inr (h.finished power b home ∙ sym (h.buf b home));
      },
    )
