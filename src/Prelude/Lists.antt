-- ===== src/Prelude/Lists.antt =====
-- Lists measured and indexed by native numbers, under the library's names.
use Prim.Native.Nat.{ℕ, zero, suc, ◌+◌, ◌-◌, ◌<◌, min}
use mathlib.Core.Path.{◌≡◌, refl, ap, sym}
use mathlib.Core.Logic.{◌≢◌, ◌⊎◌, inl, inr}
use mathlib.Core.List.{List, [], ◌∷◌, ◌++◌, map}
use mathlib.Core.Option.{Option, none, some, none-ne-some, some-injective}
use native.Mathlib.Omega.{arith}

module _ {ℓ} {A : Type ℓ} where
  abbrev pub length : List A → ℕ
  length [] = 0
  length (x ∷ xs) = suc (length xs)

  abbrev pub get_elem? : List A → ℕ → Option A
  get_elem? [] i = none
  get_elem? (x ∷ xs) zero = some x
  get_elem? (x ∷ xs) (suc i) = get_elem? xs i

  -- A write out of bounds changes nothing.
  abbrev pub set : List A → ℕ → A → List A
  set [] i v = []
  set (x ∷ xs) zero v = v ∷ xs
  set (x ∷ xs) (suc i) v = x ∷ set xs i v

  pub length-append : (xs ys : List A) → length (xs ++ ys) ≡ length xs + length ys
  length-append [] ys = omega arith
  length-append (x ∷ xs) ys = omega (arith, length-append xs ys)

module _ {ℓ} {A : Type ℓ} where
  pub length-set : (xs : List A) (i : ℕ) (v : A) → length (set xs i v) ≡ length xs
  length-set [] i v = refl
  length-set (x ∷ xs) zero v = refl
  length-set (x ∷ xs) (suc i) v = ap suc (length-set xs i v)

  pub get_elem?-set_self :
      (xs : List A) (i : ℕ) (v : A) → i < length xs → get_elem? (set xs i v) i ≡ some v
  get_elem?-set_self [] i v h = elim h [ ]
  get_elem?-set_self (x ∷ xs) zero v h = refl
  get_elem?-set_self (x ∷ xs) (suc i) v h = get_elem?-set_self xs i v (omega arith)

  pub get_elem?-set_ne :
      (xs : List A) {i j : ℕ} (v : A) → i ≢ j → get_elem? (set xs i v) j ≡ get_elem? xs j
  get_elem?-set_ne [] v h = refl
  get_elem?-set_ne (x ∷ xs) {i = zero} {j = zero} v h = absurd (h refl)
  get_elem?-set_ne (x ∷ xs) {i = zero} {j = suc j} v h = refl
  get_elem?-set_ne (x ∷ xs) {i = suc i} {j = zero} v h = refl
  get_elem?-set_ne (x ∷ xs) {i = suc i} {j = suc j} v h = get_elem?-set_ne xs v (λ e. h (ap suc e))

module _ {ℓ} {A : Type ℓ} where
  abbrev pub get_or : List A → ℕ → A → A
  get_or [] i d = d
  get_or (x ∷ xs) zero d = x
  get_or (x ∷ xs) (suc i) d = get_or xs i d

  abbrev pub take : ℕ → List A → List A
  take zero xs = []
  take (suc n) [] = []
  take (suc n) (x ∷ xs) = x ∷ take n xs

  abbrev pub drop : ℕ → List A → List A
  drop zero xs = xs
  drop (suc n) [] = []
  drop (suc n) (x ∷ xs) = drop n xs

  abbrev pub replicate : ℕ → A → List A
  replicate zero a = []
  replicate (suc n) a = a ∷ replicate n a

  pub take-append-drop : (n : ℕ) (xs : List A) → take n xs ++ drop n xs ≡ xs
  take-append-drop zero xs = refl
  take-append-drop (suc n) [] = refl
  take-append-drop (suc n) (x ∷ xs) = rw (take-append-drop n xs)

  pub length-take : (n : ℕ) (xs : List A) → length (take n xs) ≡ min n (length xs)
  length-take zero xs = omega arith
  length-take (suc n) [] = omega arith
  length-take (suc n) (x ∷ xs) = omega (arith, length-take n xs)

  pub length-drop : (n : ℕ) (xs : List A) → length (drop n xs) ≡ length xs - n
  length-drop zero xs = omega arith
  length-drop (suc n) [] = omega arith
  length-drop (suc n) (x ∷ xs) = omega (arith, length-drop n xs)

  pub length-replicate : (n : ℕ) (a : A) → length (replicate n a) ≡ n
  length-replicate zero a = refl
  length-replicate (suc n) a = ap suc (length-replicate n a)

  pub length-map {κ} : {B : Type κ} (xs : List A) (f : A → B) → length (map f xs) ≡ length xs
  length-map [] f = refl
  length-map (x ∷ xs) f = ap suc (length-map xs f)

  pub get_elem?-bound : (xs : List A) (i : ℕ) {x : A} → get_elem? xs i ≡ some x → i < length xs
  get_elem?-bound [] i h = absurd (none-ne-some _ h)
  get_elem?-bound (y ∷ xs) zero h = omega arith
  get_elem?-bound (y ∷ xs) (suc i) h = let ih = get_elem?-bound xs i h in omega arith

  pub set_same : (xs : List A) (i : ℕ) (x : A) → get_elem? xs i ≡ some x → set xs i x ≡ xs
  set_same [] i x h = refl
  set_same (y ∷ xs) zero x h = ap (λ z. z ∷ xs) (some-injective _ _ (sym h))
  set_same (y ∷ xs) (suc i) x h = ap (◌∷◌ y) (set_same xs i x h)

  -- Where an element of a list after a write comes from.
  pub get_elem?-set_cases :
      (xs : List A) (i j : ℕ) (v x : A)
      → get_elem? (set xs i v) j ≡ some x
      → ((i ≡ j) × (x ≡ v)) ⊎ ((i ≢ j) × (get_elem? xs j ≡ some x))
  get_elem?-set_cases [] i j v x h = absurd (none-ne-some _ h)
  get_elem?-set_cases (y ∷ xs) zero zero v x h = inl (refl, some-injective _ _ (sym h))
  get_elem?-set_cases (y ∷ xs) zero (suc j) v x h = inr ((λ e. omega arith), h)
  get_elem?-set_cases (y ∷ xs) (suc i) zero v x h = inr ((λ e. omega arith), h)
  get_elem?-set_cases (y ∷ xs) (suc i) (suc j) v x h = shift (get_elem?-set_cases xs i j v x h)
    where
      shift :
          ((i ≡ j) × (x ≡ v)) ⊎ ((i ≢ j) × (get_elem? xs j ≡ some x))
          → ((suc i ≡ suc j) × (x ≡ v)) ⊎ ((suc i ≢ suc j) × (get_elem? xs j ≡ some x))
      shift (inl (e, f)) = inl (ap suc e, f)
      shift (inr (ne, f)) = inr ((λ e. ne (omega arith)), f)

  pub get_elem?-append_left :
      (xs ys : List A) (j : ℕ) (x : A) → get_elem? xs j ≡ some x → get_elem? (xs ++ ys) j ≡ some x
  get_elem?-append_left [] ys j x h = absurd (none-ne-some _ h)
  get_elem?-append_left (y ∷ xs) ys zero x h = h
  get_elem?-append_left (y ∷ xs) ys (suc j) x h = get_elem?-append_left xs ys j x h

  -- The element at the end.
  pub get_elem?-append_last :
      (xs : List A) (x : A) → get_elem? (xs ++ (x ∷ [])) (length xs) ≡ some x
  get_elem?-append_last [] x = refl
  get_elem?-append_last (y ∷ xs) x = get_elem?-append_last xs x

  -- An element of a list with one added.
  pub get_elem?-append_cases :
      (xs : List A) (y : A) (j : ℕ) (x : A)
      → get_elem? (xs ++ (y ∷ [])) j ≡ some x
      → ((j < length xs) × (get_elem? xs j ≡ some x)) ⊎ ((j ≡ length xs) × (x ≡ y))
  get_elem?-append_cases [] y zero x h = inr (refl, some-injective _ _ (sym h))
  get_elem?-append_cases [] y (suc j) x h = absurd (none-ne-some _ h)
  get_elem?-append_cases (z ∷ xs) y zero x h = inl (omega arith, h)
  get_elem?-append_cases (z ∷ xs) y (suc j) x h = up (get_elem?-append_cases xs y j x h)
    where
      up :
          ((j < length xs) × (get_elem? xs j ≡ some x)) ⊎ ((j ≡ length xs) × (x ≡ y))
          → ((suc j < suc (length xs)) × (get_elem? xs j ≡ some x))
            ⊎ ((suc j ≡ suc (length xs)) × (x ≡ y))
      up (inl (l, e)) = inl (omega arith, e)
      up (inr (l, e)) = inr (ap suc l, e)

  -- A list is empty, or has a last element.
  pub data Ends : List A → Type ℓ where
    empty : Ends []
    last : (xs : List A) (x : A) → Ends (xs ++ (x ∷ []))

  pub ends : (xs : List A) → Ends xs
  ends [] = empty
  ends (x ∷ xs) = go xs (ends xs)
    where
      go : (xs : List A) → Ends xs → Ends (x ∷ xs)
      go _ empty = last [] x
      go _ (last ys y) = last (x ∷ ys) y
