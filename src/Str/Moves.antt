-- ===== src/Str/Moves.antt =====
-- `memset` and `memmove` of kernel/string.c against what the memory holds afterwards.
use os_project_cs.Prelude.{
  ℕ, zero, suc, ◌+◌, ◌-◌, ◌%◌, ◌≤◌, ◌<◌, ◌≡◌, ◌⊎◌, inl, inr, Bool, ◌&&◌, ltb, leb, ◌==◌,
  if◌then◌else◌, update, arith, Bool-cases, dec_lt, ℕ_discrete, ◌∙◌,
}
use os_project_cs.Str.{Memory, memset_rounds, memset, move_up, move_down, memmove}

-- Address `a` lies among the `n` from `d` on.
abbrev pub within : ℕ → ℕ → ℕ → Bool
within d n a = leb d a && ltb a (d + n)

memset_rounds_lem :
    (k dst i c : ℕ) (m : Memory) (a : ℕ)
    → memset_rounds k dst i c m a ≡ (if within (dst + i) k a then c % 256 else m a)
unfolding memset_rounds
memset_rounds_lem zero dst i c m a = ground arith
memset_rounds_lem (suc k) dst i c m a =
    ground (arith, memset_rounds_lem k dst (i + 1) c (update m (dst + i) (c % 256)) a)

-- `memset` sets the `n` bytes from `dst` on to the low byte of `c`, and no other byte.
pub memset_lem :
    (dst c n : ℕ) (m : Memory) (a : ℕ)
    → memset dst c n m a ≡ (if within dst n a then c % 256 else m a)
unfolding memset
memset_lem dst c n m a = ground (arith, memset_rounds_lem n dst 0 c m a)

-- Upwards the bytes still to be read lie before the target, or after all of it.
move_up_lem :
    (d s n : ℕ) (m : Memory) (a : ℕ)
    → (d ≤ s) ⊎ (s + n ≤ d)
    → move_up d s n m a ≡ (if within d n a then m (s + (a - d)) else m a)
unfolding move_up
move_up_lem d s zero m a h = ground arith
move_up_lem d s (suc n) m a h =
    move_up_lem (d + 1) (s + 1) n (update m d (m s)) a (ground arith) ∙ first (dec_lt d a)
  where
    first :
        Dec (d < a)
        → (if within (d + 1) n a
            then update m d (m s) (s + 1 + (a - (d + 1)))
            else update m d (m s) a)
          ≡ (if within d (suc n) a then m (s + (a - d)) else m a)
    first (yes later) =
        let e : s + 1 + (a - (d + 1)) ≡ s + (a - d) = omega arith in rw e (ground arith)
    first (no here) = let e : a ≡ d → s + (a - d) ≡ s = λ q. omega arith in ground (arith, e)

move_down_lem :
    (d s n : ℕ) (m : Memory) (a : ℕ)
    → s ≤ d
    → move_down (d + n) (s + n) n m a ≡ (if within d n a then m (s + (a - d)) else m a)
unfolding move_down
move_down_lem d s zero m a h = ground arith
move_down_lem d s (suc n) m a h =
    let e : d + suc n - 1 ≡ d + n = omega arith in
    let f : s + suc n - 1 ≡ s + n = omega arith in
    rw (e, f) (move_down_lem d s n (update m (d + n) (m (s + n))) a h ∙ last (ℕ_discrete a (d + n)))
  where
    last :
        Dec (a ≡ d + n)
        → (if within d n a
            then update m (d + n) (m (s + n)) (s + (a - d))
            else update m (d + n) (m (s + n)) a)
          ≡ (if within d (suc n) a then m (s + (a - d)) else m a)
    last (yes here) = let e : s + (a - d) ≡ s + n = omega arith in ground (arith, e)
    last (no other) = ground arith

-- `memmove` leaves in the `n` bytes from `dst` on what the `n` bytes from `src` on held before,
-- also where the two ranges overlap, and changes no other byte.
pub memmove_lem :
    (dst src n : ℕ) (m : Memory) (a : ℕ)
    → memmove dst src n m a ≡ (if within dst n a then m (src + (a - dst)) else m a)
unfolding memmove
memmove_lem dst src n m a = elim (Bool-cases (n == 0)) [
  | inl none_left ↦ rw none_left (ground arith)
  | inr some_left ↦ elim (Bool-cases (ltb src dst && ltb dst (src + n))) [
    | inl overlap ↦ rw (some_left, overlap) (move_down_lem dst src n m a (ground arith))
    | inr clear ↦ rw (some_left, clear) (move_up_lem dst src n m a (ground arith))
  ]
]
