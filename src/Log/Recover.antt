-- ===== src/Log/Recover.antt =====
-- `recover_from_log` of kernel/log.c, run to its end or stopped at any of its writes.
use os_project_cs.Prelude.{ℕ, ◌+◌, ◌≤◌, ◌<◌, ◌≡◌, ◌⊎◌, refl, true, arith, ◌∙◌, sym, ap, subst}
use os_project_cs.Log.{
  Block, Cache, LogHeader, Log, install_trans, read_head, write_head, recover_from_log,
}
use os_project_cs.Log.Replay.{IsHome, durable, hits, log_block, replay-here, replay-ext}
use os_project_cs.Log.Steps.{Installed, write_head-Headed, install_trans-Installed, read_blocks_lem}
use os_project_cs.Log.Durable.{IsReplayable, hits-home, hits-ext, durable_same}
use os_project_cs.Log.Clear.{Recovered, Copied, Copied-Recovered}

-- Every recovery starts from the disk alone.
abbrev pub IsBooted : Cache → Type 0
IsBooted c = (b : ℕ) → c.buf b ≡ c.disk b

head_at :
    (start : ℕ) (lh : LogHeader) (c : Cache) (i : ℕ)
    → IsBooted c
    → i < c.disk start 0
    → (read_head start lh c).block i ≡ c.disk start (i + 1)
unfolding read_head
head_at start lh c i booted u =
    ground (arith, read_blocks_lem (c.buf start 0) 0 (c.buf start) lh.block i, booted start)

module _ (start size : ℕ) (lh : LogHeader) (c : Cache) where
  abbrev head : LogHeader
  head = read_head start lh c

  abbrev logged : ℕ
  logged = c.disk start 0

  -- The loop of `install_trans` in a recovery.
  installing :
      IsReplayable start size c.disk
      → IsBooted c
      → Installed start head
          (log_block start c.disk)
          logged
          0
          c
          (install_trans true start head logged 0 c)
  installing r booted =
      install_trans-Installed start head true (log_block start c.disk) logged 0 c
        (λ i l u. ground (arith, head_at start lh c i booted (omega arith), r.homes i, r.fits))
        (λ i l u. booted (start + i + 1))

  Installed-Copied :
      (c1 : Cache)
      → IsReplayable start size c.disk
      → IsBooted c
      → Installed start head (log_block start c.disk) logged 0 c c1
      → Copied start size c c1
  Installed-Copied c1 r booted h =
      let blk : ℕ → ℕ = λ i. c.disk start (i + 1) in
      let block : (i : ℕ) → 0 ≤ i → i < 0 + logged → head.block i ≡ blk i =
        λ i l u. head_at start lh c i booted (omega arith) in
      let partial : (b : ℕ) → (hits blk logged 0 b ≡ true) ⊎ (c1.disk b ≡ c.disk b) =
        λ b. rw (← hits-ext head.block blk logged 0 b block) (h.partial b) in
      let log : (j : ℕ) → j < size → c1.disk (start + j) ≡ c.disk (start + j) = λ j u. ground (
        arith,
        partial (start + j),
        hits-home start size blk logged 0 (start + j) (λ i l v. r.homes i (omega arith)),
      ) in
      record {
        log = log;
        same = λ b. durable_same start size c.disk c1.disk b r log (partial b);
        full = λ p b.
            h.full p b
            ∙ replay-ext head.block blk (log_block start c.disk) (log_block start c.disk) logged 0
                c.disk b (λ i l u. (block i l u, refl));
        buf = λ b home.
            h.buf b
            ∙ replay-ext head.block blk (log_block start c.disk) (log_block start c.disk) logged 0
                c.buf b (λ i l u. (block i l u, refl))
            ∙ replay-here blk (log_block start c.disk) logged 0 c.buf c.disk b (booted b);
        power = h.power;
      }

pub recover_from_log-Recovered :
    (l : Log)
    → IsReplayable l.start l.size l.cache.disk
    → IsBooted l.cache
    → Recovered l.start l.size l.cache (recover_from_log l).cache
unfolding recover_from_log
recover_from_log-Recovered l r booted =
    let s = l.start in
    let c = l.cache in
    let h = head s l.size l.lh c in
    subst
      (λ (n : ℕ).
        Recovered s l.size c (write_head s (record h { n = 0 }) (install_trans true s h n 0 c)))
      (ap (λ (x : Block). x 0) (sym (booted s)))
      (Copied-Recovered s l.size c _ _ _ r
        (Installed-Copied s l.size l.lh c _ r booted (installing s l.size l.lh c r booted))
        (write_head-Headed s (record h { n = 0 }) _) refl)

-- A recovery that the power lasts for (one write for each logged block, and one for the header)
-- brings every block outside the log to what the disk stood for, in the cache and on the disk, and
-- empties the log.
pub recover_completes :
    (l : Log)
    → IsReplayable l.start l.size l.cache.disk
    → IsBooted l.cache
    → l.cache.disk l.start 0 < l.cache.power
    → let c = (recover_from_log l).cache in
      ((b : ℕ)
        → IsHome l.start l.size b
        → (c.disk b ≡ durable l.start l.cache.disk b) × (c.buf b ≡ c.disk b))
      × (c.disk l.start 0 ≡ 0)
recover_completes l r booted power =
    let h = recover_from_log-Recovered l r booted in (h.finished power, h.emptied power)

-- A recovery that stops after any number of its writes leaves a disk that stands for the same
-- blocks and can be recovered again.
pub recover_resumes :
    (l : Log)
    → IsReplayable l.start l.size l.cache.disk
    → IsBooted l.cache
    → let d = (recover_from_log l).cache.disk in
      IsReplayable l.start l.size d
      × ((b : ℕ) → IsHome l.start l.size b → durable l.start d b ≡ durable l.start l.cache.disk b)
recover_resumes l r booted = let h = recover_from_log-Recovered l r booted in (h.replayable, h.same)
