-- ===== src/Log/Durable.antt =====
-- When the log on disk can be replayed, and what may change under it.
use os_project_cs.Prelude.{
  ℕ, zero, suc, ◌+◌, ◌≤◌, ◌<◌, ◌≡◌, ◌⊎◌, inl, inr, refl, true, false, arith, ◌∙◌, ◌≢◌, ap,
}
use os_project_cs.Log.{Block}
use os_project_cs.Log.Replay.{
  replay, hits, durable, log_block, IsHome, replay-here, replay-hit, replay-ext,
}

-- A log on disk that can be replayed: it fits, and it names no block of the log itself.
pub record IsReplayable (start size : ℕ) (d : ℕ → Block) : Type 0 where
  pub fits : d start 0 < size
  pub homes : (i : ℕ) → i < d start 0 → IsHome start size (d start (i + 1))

pub apart : (start size b : ℕ) {n : ℕ} → n < size → IsHome start size b → start ≢ b
apart start size b f home = ground arith

-- The header block is the first of the log.
pub header_same :
    (start size : ℕ) (d d' : ℕ → Block)
    → 0 < size
    → ((j : ℕ) → j < size → d' (start + j) ≡ d (start + j))
    → d' start ≡ d start
header_same start size d d' f log = let e : start + 0 ≡ start = omega arith in rw e at (log 0 f)

pub IsReplayable-log :
    (start size : ℕ) (d d' : ℕ → Block)
    → IsReplayable start size d
    → ((j : ℕ) → j < size → d' (start + j) ≡ d (start + j))
    → IsReplayable start size d'
IsReplayable-log start size d d' r log =
    let f = r.fits in
    let e = header_same start size d d' (omega arith) log in
    record { fits = rw e f; homes = λ i. rw e (r.homes i) }

pub hits-home :
    (start size : ℕ) (blk : ℕ → ℕ) (k t b : ℕ)
    → ((i : ℕ) → t ≤ i → i < t + k → IsHome start size (blk i))
    → start ≤ b
    → b < start + size
    → hits blk k t b ≡ false
hits-home start size blk zero t b homes l u = refl
hits-home start size blk (suc k) t b homes l u = ground (
  arith,
  homes t,
  hits-home start size blk k (t + 1) b (λ i q r. homes i (omega arith) (omega arith)),
)

pub hits-ext :
    (blk blk' : ℕ → ℕ) (k t b : ℕ)
    → ((i : ℕ) → t ≤ i → i < t + k → blk i ≡ blk' i)
    → hits blk k t b ≡ hits blk' k t b
hits-ext blk blk' zero t b same = refl
hits-ext blk blk' (suc k) t b same =
    ground
      (arith, same t, hits-ext blk blk' k (t + 1) b (λ i l u. same i (omega arith) (omega arith)))

-- Blocks that the log will set anyway may change before it is replayed.
pub durable_same :
    (start size : ℕ) (d d' : ℕ → Block) (b : ℕ)
    → IsReplayable start size d
    → ((j : ℕ) → j < size → d' (start + j) ≡ d (start + j))
    → (hits (λ i. d start (i + 1)) (d start 0) 0 b ≡ true) ⊎ (d' b ≡ d b)
    → durable start d' b ≡ durable start d b
durable_same start size d d' b r log h =
    ap (λ (x : Block). replay (λ i. x (i + 1)) (log_block start d') (x 0) 0 d' b) header
    ∙ replay-ext blk blk (log_block start d') (log_block start d) n 0 d' b
        (λ i l u. (refl, contents i u))
    ∙ before h
  where
    blk : ℕ → ℕ
    blk i = d start (i + 1)

    n : ℕ
    n = d start 0

    header : d' start ≡ d start
    header = header_same start size d d' (omega (arith, r.fits)) log

    contents : (i : ℕ) → i < 0 + n → d' (start + i + 1) ≡ d (start + i + 1)
    contents i u =
        let e : start + (i + 1) ≡ start + i + 1 = omega arith in
        rw e at (log (i + 1) (omega (arith, r.fits)))

    before :
        (hits blk n 0 b ≡ true) ⊎ (d' b ≡ d b)
        → replay blk (log_block start d) n 0 d' b ≡ replay blk (log_block start d) n 0 d b
    before (inl hit) = replay-hit blk (log_block start d) n 0 d' d b hit
    before (inr same) = replay-here blk (log_block start d) n 0 d' d b same

-- With no transaction in the log the disk stands for itself.
pub durable_empty : (start : ℕ) (d : ℕ → Block) (b : ℕ) → d start 0 ≡ 0 → durable start d b ≡ d b
durable_empty start d b h =
    ap (λ (n : ℕ). replay (λ i. d start (i + 1)) (log_block start d) n 0 d b) h
