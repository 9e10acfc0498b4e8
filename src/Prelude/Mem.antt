-- ===== src/Prelude/Mem.antt =====
-- Memory as a function from addresses, written at one address or over a range.
use Prim.Native.Nat.{ℕ, ◌+◌}
use mathlib.Core.Bool.{◌&&◌}
use os_project_cs.Prelude.Tests.{◌==◌, leb, ltb, if◌then◌else◌}

module _ {ℓ} {A : Type ℓ} where
  abbrev pub update : (ℕ → A) → ℕ → A → ℕ → A
  update m a v b = if a == b then v else m b

  -- The range of `n` addresses from `a` on set to `v`.
  abbrev pub fill : (ℕ → A) → ℕ → ℕ → A → ℕ → A
  fill m a n v b = if leb a b && ltb b (a + n) then v else m b
