-- ===== src/Bio/Init.antt =====
-- `binit` of kernel/bio.c: every buffer in the ring.
use os_project_cs.Prelude.{
  ℕ, zero, suc, ◌+◌, ◌≡◌, refl, List, [], ◌∷◌, arith, update, ◌<◌, ◌≤◌, length,
}
use os_project_cs.Spinlock.Section.{unlocked}
use os_project_cs.Bio.{Bcache, nbuf, push_front, init_rounds, binit}
use os_project_cs.Bio.Ring.{Ring, Avoids, update_at}
use os_project_cs.Bio.Lru.{push_front-Ring}

-- `l` with the `k` numbers from `b` on before it, the last one first.
abbrev pub count_up : ℕ → ℕ → List ℕ → List ℕ
count_up zero b l = l
count_up (suc k) b l = count_up k (b + 1) (b ∷ l)

abbrev AllBelow : ℕ → List ℕ → Type 0
AllBelow b [] = Unit
AllBelow b (a ∷ l) = (a < b) × AllBelow b l

AllBelow-Avoids : (b : ℕ) (l : List ℕ) → AllBelow b l → Avoids b l
AllBelow-Avoids b [] h = tt
AllBelow-Avoids b (a ∷ l) (u, h) = ((λ e. omega arith), AllBelow-Avoids b l h)

AllBelow-more : (b : ℕ) (l : List ℕ) → AllBelow b l → AllBelow (b + 1) l
AllBelow-more b [] h = tt
AllBelow-more b (a ∷ l) (u, h) = (omega arith, AllBelow-more b l h)

init_rounds-Ring :
    (k b : ℕ) (l : List ℕ) (s : Bcache)
    → b + k ≤ nbuf
    → AllBelow b l
    → Ring s l
    → Ring (init_rounds k b s) (count_up k b l)
unfolding init_rounds
init_rounds-Ring zero b l s h below r = r
init_rounds-Ring (suc k) b l s h below r =
    init_rounds-Ring k (b + 1) (b ∷ l) (push_front b s) (omega arith)
      (omega arith, AllBelow-more b l below)
      (push_front-Ring s b l (AllBelow-Avoids b l below) (λ e. omega arith) r)

-- `binit` leaves every buffer in the ring, once, the last one of the array first.
pub binit-Ring :
    (s : Bcache) → Ring (binit s) (count_up nbuf 0 []) × (length (count_up nbuf 0 []) ≡ nbuf)
unfolding binit
binit-Ring s =
    let start : Bcache = record s {
      lock = unlocked;
      prev = update s.prev nbuf nbuf;
      next = update s.next nbuf nbuf;
    } in
    (
      init_rounds-Ring nbuf 0 [] start (omega arith) tt record {
        forwards = update_at s.next nbuf nbuf;
        backwards = update_at s.prev nbuf nbuf;
        distinct = (tt, tt);
      },
      refl,
    )
