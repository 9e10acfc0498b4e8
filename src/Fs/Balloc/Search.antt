-- ===== src/Fs/Balloc/Search.antt =====
-- The search of `balloc` (kernel/fs.c) through one block of the free map.
use os_project_cs.Prelude.{
  ℕ, zero, suc, ◌+◌, ◌/◌, ◌%◌, ◌<◌, ◌≤◌, ◌≡◌, Option, none, some, ◌==◌, ltb, arith, ℕ_discrete,
  Bool-cases, inl, inr,
}
use os_project_cs.Fs.Balloc.{find_bit}
use os_project_cs.Fs.Balloc.Bits.{bit, test_bit}

-- The bit of a map block for its `j`-th block.
abbrev pub bit_at : (ℕ → ℕ) → ℕ → ℕ
bit_at bytes j = bit (bytes (j / 8)) (j % 8)

pub data Found (k b bi size : ℕ) (bytes : ℕ → ℕ) : Option ℕ → Type 0 where
  none_free :
      ((j : ℕ) → bi ≤ j → j < bi + k → b + j < size → bit_at bytes j ≡ 1)
      → Found k b bi size bytes none
  free_at :
      (j : ℕ)
      → bi ≤ j
      → j < bi + k
      → b + j < size
      → bit_at bytes j ≡ 0
      → ((i : ℕ) → bi ≤ i → i < j → bit_at bytes i ≡ 1)
      → Found k b bi size bytes (some j)

Found-more :
    (k b bi size : ℕ) (bytes : ℕ → ℕ) (o : Option ℕ)
    → bit_at bytes bi ≡ 1
    → Found k b (bi + 1) size bytes o
    → Found (suc k) b bi size bytes o
Found-more k b bi size bytes _ here (none_free all) = none_free (λ j low high below.
    elim (ℕ_discrete j bi) [
      | yes same ↦ rw same here
      | no other ↦ all j (omega arith) (omega arith) below
    ])
Found-more k b bi size bytes _ here (free_at j low high below free before) =
    free_at j (omega arith) (omega arith) below free (λ i l h. elim (ℕ_discrete i bi) [
      | yes same ↦ rw same here
      | no other ↦ before i (omega arith) h
    ])

pub find_bit-Found :
    (k b bi size : ℕ) (bytes : ℕ → ℕ)
    → ((i : ℕ) → bytes i < 256)
    → Found k b bi size bytes (find_bit k b bi size bytes)
unfolding find_bit
find_bit-Found zero b bi size bytes small = none_free (λ j low high below. absurd (omega arith))
find_bit-Found (suc k) b bi size bytes small = elim (Bool-cases (ltb (b + bi) size)) [
  | inl below ↦
      let test = test_bit (bytes (bi / 8)) (bi % 8) (small (bi / 8)) (omega arith) in
      elim (Bool-cases (bit_at bytes bi == 0)) [
        | inl free ↦
            rw (below, test, free)
              (free_at bi (omega arith) (omega arith) (ground arith) (ground arith)
                (λ i low high. absurd (omega arith)))
        | inr taken ↦
            rw (below, test, taken)
              (Found-more k b bi size bytes (find_bit k b (bi + 1) size bytes) (ground arith)
                (find_bit-Found k b (bi + 1) size bytes small))
      ]
  | inr above ↦ rw above (none_free (λ j low high below. absurd (ground arith)))
]
