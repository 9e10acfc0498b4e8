-- ===== src/Fs/Balloc/Bits.antt =====
-- The bits of a byte under `|`, `&` and `& ~`, by a table of all bytes.
use Prim.Native.Nat.{bit_and, bit_or}
use os_project_cs.Prelude.{
  ℕ, zero, suc, ◌-◌, ◌/◌, ◌%◌, ◌^◌, ◌<◌, ◌≡◌, refl, Bool, true, ◌&&◌, ◌==◌, ltb, if◌then◌else◌,
  arith, ap, ◌∙◌, ℕ_discrete,
}

abbrev pub bit : ℕ → ℕ → ℕ
bit x k = (x / 2 ^ k) % 2

-- The test holds for each of the first `k` numbers.
every : (ℕ → Bool) → ℕ → Bool
every test zero = true
every test (suc k) = every test k && test k

every-at : (test : ℕ → Bool) (k i : ℕ) → i < k → every test k ≡ true → test i ≡ true
unfolding every
every-at test zero i l h = absurd (omega arith)
every-at test (suc k) i l h = elim (ℕ_discrete i k) [
  | yes e ↦ ap test e ∙ ground arith
  | no ne ↦ every-at test k i (omega arith) (ground arith)
]

-- What the three operations do to byte `x`, for mask bit `k`, at bit `j`.
right_at : ℕ → ℕ → ℕ → Bool
right_at x k j =
    ((bit (bit_or x (2 ^ k)) j == (if j == k then 1 else bit x j))
      && (bit (bit_and x (255 - 2 ^ k)) j == (if j == k then 0 else bit x j)))
    && ((ltb (bit_or x (2 ^ k)) 256 && ltb (bit_and x (255 - 2 ^ k)) 256)
        && (if bit_and x (2 ^ k) == 0 then bit x k == 0 else bit x k == 1))

table : every (λ x. every (λ k. every (right_at x k) 8) 8) 256 ≡ true
unfolding every right_at
table = refl

at : (x k j : ℕ) → x < 256 → k < 8 → j < 8 → right_at x k j ≡ true
at x k j hx hk hj =
    let row : every (λ k. every (right_at x k) 8) 8 ≡ true = every-at _ 256 x hx table in
    let cell : every (right_at x k) 8 ≡ true = every-at _ 8 k hk row in every-at _ 8 j hj cell

pub or_bit :
    (x k j : ℕ)
    → x < 256
    → k < 8
    → j < 8
    → bit (bit_or x (2 ^ k)) j ≡ (if j == k then 1 else bit x j)
unfolding right_at
or_bit x k j hx hk hj = ground (arith, at x k j)

pub and_bit :
    (x k j : ℕ)
    → x < 256
    → k < 8
    → j < 8
    → bit (bit_and x (255 - 2 ^ k)) j ≡ (if j == k then 0 else bit x j)
unfolding right_at
and_bit x k j hx hk hj = ground (arith, at x k j)

pub or_byte : (x k : ℕ) → x < 256 → k < 8 → bit_or x (2 ^ k) < 256
unfolding right_at
or_byte x k hx hk = ground (arith, at x k 0)

pub and_byte : (x k : ℕ) → x < 256 → k < 8 → bit_and x (255 - 2 ^ k) < 256
unfolding right_at
and_byte x k hx hk = ground (arith, at x k 0)

-- The test of `balloc` and `bfree`.
pub test_bit : (x k : ℕ) → x < 256 → k < 8 → (bit_and x (2 ^ k) == 0) ≡ (bit x k == 0)
unfolding right_at
test_bit x k hx hk = ground (arith, at x k 0)
