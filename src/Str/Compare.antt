-- ===== src/Str/Compare.antt =====
-- `memcmp`, `strncmp` and `strlen` of kernel/string.c against the bytes and texts in memory.
use os_project_cs.Prelude.{
  ℕ, zero, suc, ◌+◌, ◌-◌, ◌≤◌, ◌<◌, ◌≡◌, ◌≢◌, ◌⊎◌, inl, inr, true, false, not, ◌&&◌, List, [], ◌∷◌,
  leb, ◌==◌, if◌then◌else◌, arith, refl, Bool-cases, ℕ_discrete, ℤ, pos, negsuc, sub_ℕ, some, ap,
}
use os_project_cs.Str.{Memory, memcmp, strncmp, strlen_from}

-- The `n` bytes at an address.
abbrev pub bytes : Memory → ℕ → ℕ → List ℕ
bytes m p zero = []
bytes m p (suc n) = m p ∷ bytes m (p + 1) n

-- The text at an address: the bytes before the first NUL, at most `n` of them.
abbrev pub text : Memory → ℕ → ℕ → List ℕ
text m p zero = []
text m p (suc n) = if m p == 0 then [] else m p ∷ text m (p + 1) n

-- The order of two lists of bytes by the first place where they differ: `a` is before `b`.
pub data Before : List ℕ → List ℕ → Type 0 where
  byte : {x y : ℕ} {xs ys : List ℕ} → x < y → Before (x ∷ xs) (y ∷ ys)
  more : (x : ℕ) {xs ys : List ℕ} → Before xs ys → Before (x ∷ xs) (x ∷ ys)
  shorter : {y : ℕ} {ys : List ℕ} → Before [] (y ∷ ys)

-- What the sign of a comparison says.
abbrev pub Says : ℤ → List ℕ → List ℕ → Type 0
Says (pos zero) a b = a ≡ b
Says (pos (suc n)) a b = Before b a
Says (negsuc n) a b = Before a b

Says-byte : (x y : ℕ) (xs ys : List ℕ) → x ≢ y → Says (sub_ℕ x y) (x ∷ xs) (y ∷ ys)
Says-byte x y xs ys ne = go (Bool-cases (leb y x))
  where
    go : ((leb y x) ≡ true) ⊎ ((leb y x) ≡ false) → Says (sub_ℕ x y) (x ∷ xs) (y ∷ ys)
    go (inl ge) = let e : x - y ≡ suc (x - y - 1) = ground arith in rw (ge, e) (byte (ground arith))
    go (inr lt) = rw lt (byte (ground arith))

Says-more : (r : ℤ) (x : ℕ) (xs ys : List ℕ) → Says r xs ys → Says r (x ∷ xs) (x ∷ ys)
Says-more (pos zero) x xs ys h = ap (◌∷◌ x) h
Says-more (pos (suc n)) x xs ys h = more x h
Says-more (negsuc n) x xs ys h = more x h

-- `memcmp` is 0 exactly for equal bytes, and otherwise positive or negative as the first byte that
-- differs is greater or smaller.
pub memcmp-Says : (s1 s2 n : ℕ) (m : Memory) → Says (memcmp s1 s2 n m) (bytes m s1 n) (bytes m s2 n)
unfolding memcmp
memcmp-Says s1 s2 zero m = refl
memcmp-Says s1 s2 (suc n) m = elim (ℕ_discrete (m s1) (m s2)) [
  | yes same ↦
      let t : (m s1 == m s2) ≡ true = ground arith in
      rw (t, same)
        (Says-more (memcmp (s1 + 1) (s2 + 1) n m) (m s2) _ _ (memcmp-Says (s1 + 1) (s2 + 1) n m))
  | no differ ↦
      let t : (m s1 == m s2) ≡ false = ground arith in rw t (Says-byte (m s1) (m s2) _ _ differ)
]

-- One round of `strncmp` at bytes `x` and `y`.
strncmp_step :
    (x y : ℕ) (r : ℤ) (xs ys : List ℕ)
    → Says r xs ys
    → Says
        (if not (x == 0) && (x == y) then r else sub_ℕ x y)
        (if x == 0 then [] else x ∷ xs)
        (if y == 0 then [] else y ∷ ys)
strncmp_step zero zero r xs ys h = refl
strncmp_step zero (suc y) r xs ys h =
    let a : (suc y == 0) ≡ false = ground arith in
    let b : leb (suc y) 0 ≡ false = ground arith in rw (a, b) shorter
strncmp_step (suc x) zero r xs ys h =
    let a : (suc x == 0) ≡ false = ground arith in
    let b : leb 0 (suc x) ≡ true = ground arith in
    let c : suc x - 0 ≡ suc x = omega arith in rw (a, b, c) shorter
strncmp_step (suc x) (suc y) r xs ys h =
    let a : (suc x == 0) ≡ false = ground arith in
    let b : (suc y == 0) ≡ false = ground arith in
    elim (ℕ_discrete x y) [
      | yes same ↦
          let t : (suc x == suc y) ≡ true = ground arith in
          rw (a, b, t, same) (Says-more r (suc y) xs ys h)
      | no differ ↦
          let t : (suc x == suc y) ≡ false = ground arith in
          rw (a, b, t) (Says-byte (suc x) (suc y) xs ys (λ e. differ (omega arith)))
    ]

-- `strncmp` compares the texts at two addresses, cut off after `n` bytes: it is 0 exactly if they are
-- the same text, and otherwise says which of them comes first, a text that ends being before any that
-- goes on.
pub strncmp-Says : (p q n : ℕ) (m : Memory) → Says (strncmp p q n m) (text m p n) (text m q n)
unfolding strncmp
strncmp-Says p q zero m = refl
strncmp-Says p q (suc n) m =
    strncmp_step (m p) (m q) (strncmp (p + 1) (q + 1) n m) (text m (p + 1) n) (text m (q + 1) n)
      (strncmp-Says (p + 1) (q + 1) n m)

-- `strlen` is the number of bytes before the first NUL, if there is one among the bytes looked at.
pub strlen_from_lem :
    (fuel s i l : ℕ) (m : Memory)
    → ((j : ℕ) → i ≤ j → j < i + l → m (s + j) ≢ 0)
    → m (s + (i + l)) ≡ 0
    → l < fuel
    → strlen_from fuel s i m ≡ some (i + l)
unfolding strlen_from
strlen_from_lem zero s i l m before here enough = absurd (omega arith)
strlen_from_lem (suc fuel) s i zero m before here enough =
    let e : i + 0 ≡ i = omega arith in let h : m (s + i) ≡ 0 = rw e at here in rw (e, h)
strlen_from_lem (suc fuel) s i (suc l) m before here enough =
    let e : i + 1 + l ≡ i + suc l = omega arith in
    let go : (m (s + i) == 0) ≡ false = ground (arith, before i (omega arith) (omega arith)) in
    rw (go, ← e)
      (strlen_from_lem fuel s (i + 1) l m (λ j a b. before j (omega arith) (omega arith))
        (rw e here) (omega arith))
