-- ===== src/Log/Replay.antt =====
-- What the disk stands for: its blocks with the committed transaction of the log applied. This is
-- the state that `recover_from_log` of kernel/log.c brings about.
use os_project_cs.Prelude.{
  ℕ, zero, suc, ◌+◌, ◌≤◌, ◌<◌, ◌≡◌, ◌⊎◌, inl, inr, refl, Bool, true, false, ◌||◌, ◌==◌, update,
  arith, ◌∙◌, Bool-cases,
}
use os_project_cs.Log.{Block}

-- The blocks `blk tail`, `blk (tail + 1)`, … of `d`, `k` of them, set to the contents in `content`.
abbrev pub replay : (ℕ → ℕ) → (ℕ → Block) → ℕ → ℕ → (ℕ → Block) → ℕ → Block
replay blk content zero tail d = d
replay blk content (suc k) tail d =
    replay blk content k (tail + 1) (update d (blk tail) (content tail))

-- Whether a block is among those.
abbrev pub hits : (ℕ → ℕ) → ℕ → ℕ → ℕ → Bool
hits blk zero tail b = false
hits blk (suc k) tail b = (blk tail == b) || hits blk k (tail + 1) b

abbrev pub log_block : ℕ → (ℕ → Block) → ℕ → Block
log_block start d i = d (start + i + 1)

abbrev pub durable : ℕ → (ℕ → Block) → ℕ → Block
durable start d = replay (λ i. d start (i + 1)) (log_block start d) (d start 0) 0 d

-- A block outside the log on disk.
abbrev pub IsHome : ℕ → ℕ → ℕ → Type 0
IsHome start size b = (b < start) ⊎ (start + size ≤ b)

module _ (blk : ℕ → ℕ) (content : ℕ → Block) where
  pub replay-here :
      (k t : ℕ) (d d' : ℕ → Block) (b : ℕ)
      → d b ≡ d' b
      → replay blk content k t d b ≡ replay blk content k t d' b
  replay-here zero t d d' b h = h
  replay-here (suc k) t d d' b h = replay-here k (t + 1) _ _ b (ground arith)

  pub replay-hit :
      (k t : ℕ) (d d' : ℕ → Block) (b : ℕ)
      → hits blk k t b ≡ true
      → replay blk content k t d b ≡ replay blk content k t d' b
  replay-hit zero t d d' b h = cc
  replay-hit (suc k) t d d' b h = elim (Bool-cases (blk t == b)) [
    | inl here ↦ replay-here k (t + 1) _ _ b (ground arith)
    | inr later ↦ replay-hit k (t + 1) _ _ b (ground arith)
  ]

  pub replay-miss :
      (k t : ℕ) (d : ℕ → Block) (b : ℕ) → hits blk k t b ≡ false → replay blk content k t d b ≡ d b
  replay-miss zero t d b h = refl
  replay-miss (suc k) t d b h = replay-miss k (t + 1) _ b (ground arith) ∙ ground arith

  -- If the contents agree with `v`, so does every block that is set or that agreed before.
  pub replay-value :
      (v : ℕ → Block) (k t : ℕ) (d : ℕ → Block) (b : ℕ)
      → ((i : ℕ) → t ≤ i → i < t + k → content i ≡ v (blk i))
      → (hits blk k t b ≡ true) ⊎ (d b ≡ v b)
      → replay blk content k t d b ≡ v b
  replay-value v zero t d b all (inl h) = cc
  replay-value v zero t d b all (inr h) = h
  replay-value v (suc k) t d b all h =
      replay-value v k (t + 1) (update d (blk t) (content t)) b
        (λ i l u. all i (omega arith) (omega arith)) (first (Bool-cases (blk t == b)) h)
    where
      first :
          ((blk t == b) ≡ true) ⊎ ((blk t == b) ≡ false)
          → (hits blk (suc k) t b ≡ true) ⊎ (d b ≡ v b)
          → (hits blk k (t + 1) b ≡ true) ⊎ (update d (blk t) (content t) b ≡ v b)
      first (inl here) h = inr (ground (arith, all t (omega arith) (omega arith)))
      first (inr other) (inl later) = inl (ground arith)
      first (inr other) (inr old) = inr (ground arith)

pub replay-ext :
    (blk blk' : ℕ → ℕ) (content content' : ℕ → Block) (k t : ℕ) (d : ℕ → Block) (b : ℕ)
    → ((i : ℕ) → t ≤ i → i < t + k → (blk i ≡ blk' i) × (content i ≡ content' i))
    → replay blk content k t d b ≡ replay blk' content' k t d b
replay-ext blk blk' content content' zero t d b same = refl
replay-ext blk blk' content content' (suc k) t d b same =
    let (p, q) = same t (omega arith) (omega arith) in
    replay-ext blk blk' content content' k (t + 1) (update d (blk t) (content t)) b
      (λ i l u. same i (omega arith) (omega arith))
    ∙ replay-here blk' content' k (t + 1) (update d (blk t) (content t))
        (update d (blk' t) (content' t)) b (rw (p, q))
