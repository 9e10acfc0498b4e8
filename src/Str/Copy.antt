-- ===== src/Str/Copy.antt =====
-- `strncpy` and `safestrcpy` of kernel/string.c against the text that they leave.
use os_project_cs.Prelude.{
  ℕ, zero, suc, ◌+◌, ◌≤◌, ◌<◌, ◌≡◌, ◌≢◌, ◌⊎◌, inl, inr, false, List, [], ◌∷◌, ◌==◌, if◌then◌else◌,
  update, arith, refl, Bool-cases, ==_refl, ◌∙◌, ap, ℤ, pos, negsuc, length, sym, subst,
}
use os_project_cs.Str.{Memory, strncmp, strncpy, pad, safe_rounds, safestrcpy}
use os_project_cs.Str.Moves.{within}
use os_project_cs.Str.Compare.{text, Says, Before, byte, more, shorter, strncmp-Says}

-- The source and the target do not meet.
abbrev pub IsApart : ℕ → ℕ → ℕ → Type 0
IsApart s t n = (s + n ≤ t) ⊎ (t + n ≤ s)

pad_lem : (s n : ℕ) (m : Memory) (a : ℕ) → pad s n m a ≡ (if within s n a then 0 else m a)
unfolding pad
pad_lem s zero m a = ground arith
pad_lem s (suc n) m a = ground (arith, pad_lem (s + 1) n (update m s 0) a)

-- A text depends only on its bytes.
text_same :
    (n p q : ℕ) (m m' : Memory)
    → ((i : ℕ) → i < n → m' (p + i) ≡ m (q + i))
    → text m' p n ≡ text m q n
text_same zero p q m m' same = refl
text_same (suc n) p q m m' same =
    let e : p + 0 ≡ p = omega arith in
    let f : q + 0 ≡ q = omega arith in
    let h : m' p ≡ m q = rw (e, f) at (same 0 (omega arith)) in
    let ih = text_same n (p + 1) (q + 1) m m' (λ i u.
      let g : p + 1 + i ≡ p + suc i = omega arith in
      let k : q + 1 + i ≡ q + suc i = omega arith in rw (g, k) (same (suc i) (omega arith))) in
    rw (h, ih)

strncpy_outside : (s t n : ℕ) (m : Memory) (a : ℕ) → within s n a ≡ false → strncpy s t n m a ≡ m a
unfolding strncpy
strncpy_outside s t zero m a out = refl
strncpy_outside s t (suc n) m a out = ground (
  arith,
  pad_lem (s + 1) n (update m s (m t)) a,
  strncpy_outside (s + 1) (t + 1) n (update m s (m t)) a,
)

-- A byte written before a text does not change it.
text-update :
    (m : Memory) (s v p n : ℕ) → within p n s ≡ false → text (update m s v) p n ≡ text m p n
text-update m s v p n out = text_same n p p m (update m s v) (λ i u. ground arith)

-- A copied byte and a copied rest are a copied text.
text_step :
    (f m : Memory) (s t n : ℕ)
    → f s ≡ m t
    → text f (s + 1) n ≡ text m (t + 1) n
    → text f s (suc n) ≡ text m t (suc n)
text_step f m s t n at rest = rw (at, rest)

strncpy-more :
    (s t n : ℕ) (m : Memory)
    → (m t == 0) ≡ false
    → strncpy s t (suc n) m ≡ strncpy (s + 1) (t + 1) n (update m s (m t))
unfolding strncpy
strncpy-more s t n m goes = rw goes

strncpy_copies : (s t n : ℕ) (m : Memory) → IsApart s t n → text (strncpy s t n m) s n ≡ text m t n
unfolding strncpy
strncpy_copies s t zero m apart = refl
strncpy_copies s t (suc n) m apart = elim (Bool-cases (m t == 0)) [
  | inl end ↦
      let at : pad (s + 1) n (update m s (m t)) s ≡ 0 =
        ground (arith, pad_lem (s + 1) n (update m s (m t)) s) in
      rw (end, at)
  | inr goes ↦
      let m' : Memory = update m s (m t) in
      let at : strncpy (s + 1) (t + 1) n m' s ≡ m t =
        ground (arith, strncpy_outside (s + 1) (t + 1) n m' s) in
      let rest : text (strncpy (s + 1) (t + 1) n m') (s + 1) n ≡ text m (t + 1) n =
        strncpy_copies (s + 1) (t + 1) n m' (ground arith)
        ∙ text-update m s (m t) (t + 1) n (ground arith) in
      ap (λ f. text f s (suc n)) (strncpy-more s t n m goes)
      ∙ text_step (strncpy (s + 1) (t + 1) n m') m s t n at rest
]

-- `strncpy` into `n` bytes that do not meet the source leaves the source's text there, cut off after
-- `n` bytes, and changes nothing else.
pub strncpy_lem :
    (s t n : ℕ) (m : Memory)
    → IsApart s t n
    → (text (strncpy s t n m) s n ≡ text m t n)
      × ((a : ℕ) → within s n a ≡ false → strncpy s t n m a ≡ m a)
strncpy_lem s t n m apart = (strncpy_copies s t n m apart, strncpy_outside s t n m)

abbrev first_byte : List ℕ → ℕ
first_byte [] = 0
first_byte (x ∷ xs) = x

abbrev rest_bytes : List ℕ → List ℕ
rest_bytes [] = []
rest_bytes (x ∷ xs) = xs

Before-irrefl : {xs ys : List ℕ} → Before xs ys → xs ≢ ys
Before-irrefl (byte h) e = (let same = ap first_byte e in omega arith)
Before-irrefl (more x h) e = Before-irrefl h (ap rest_bytes e)
Before-irrefl (shorter {y = y} {ys = ys}) e =
    let h : 0 ≡ suc (length ys) = ap length e in absurd (omega arith)

Says-same : (r : ℤ) (xs : List ℕ) → Says r xs xs → r ≡ pos 0
Says-same (pos zero) xs h = refl
Says-same (pos (suc n)) xs h = absurd (Before-irrefl h refl)
Says-same (negsuc n) xs h = absurd (Before-irrefl h refl)

-- What `dirlink` of kernel/fs.c stores by `strncpy`, `namecmp` finds again: after the copy the two
-- places compare equal over the same `n` bytes.
pub strncmp-strncpy :
    (s t n : ℕ) (m : Memory) → IsApart s t n → strncmp s t n (strncpy s t n m) ≡ pos 0
strncmp-strncpy s t n m apart =
    let kept : text (strncpy s t n m) t n ≡ text m t n =
      text_same n t t m (strncpy s t n m) (λ i u. strncpy_outside s t n m (t + i) (ground arith)) in
    let same : text (strncpy s t n m) s n ≡ text (strncpy s t n m) t n =
      strncpy_copies s t n m apart ∙ sym kept in
    Says-same (strncmp s t n (strncpy s t n m)) (text (strncpy s t n m) t n) (
      subst (λ xs. Says (strncmp s t n (strncpy s t n m)) xs (text (strncpy s t n m) t n)) same
        (strncmp-Says s t n (strncpy s t n m)))

safe_outside :
    (s t n : ℕ) (m : Memory) (a : ℕ) → within s (suc n) a ≡ false → safe_rounds s t n m a ≡ m a
unfolding safe_rounds
safe_outside s t zero m a out = ground arith
safe_outside s t (suc n) m a out =
    ground (arith, safe_outside (s + 1) (t + 1) n (update m s (m t)) a)

safe_rounds-more :
    (s t n : ℕ) (m : Memory)
    → (m t == 0) ≡ false
    → safe_rounds s t (suc n) m ≡ safe_rounds (s + 1) (t + 1) n (update m s (m t))
unfolding safe_rounds
safe_rounds-more s t n m goes = rw goes

safe_copies :
    (s t n : ℕ) (m : Memory)
    → IsApart s t (suc n)
    → text (safe_rounds s t n m) s (suc n) ≡ text m t n
unfolding safe_rounds
safe_copies s t zero m apart = rw (==_refl s)
safe_copies s t (suc n) m apart = elim (Bool-cases (m t == 0)) [
  | inl end ↦ let at : safe_rounds s t (suc n) m s ≡ 0 = ground arith in rw (at, end)
  | inr goes ↦
      let m' : Memory = update m s (m t) in
      let at : safe_rounds (s + 1) (t + 1) n m' s ≡ m t =
        ground (arith, safe_outside (s + 1) (t + 1) n m' s) in
      let rest : text (safe_rounds (s + 1) (t + 1) n m') (s + 1) (suc n) ≡ text m (t + 1) n =
        safe_copies (s + 1) (t + 1) n m' (ground arith)
        ∙ text-update m s (m t) (t + 1) n (ground arith) in
      ap (λ f. text f s (suc (suc n))) (safe_rounds-more s t n m goes)
      ∙ (let g : Memory = safe_rounds (s + 1) (t + 1) n m' in rw (at, goes, rest))
]

-- `safestrcpy` into `n` bytes (at least one) that do not meet the source always leaves a text that
-- ends within them: the source's text, cut off after `n - 1` bytes. It changes nothing else.
pub safestrcpy_lem :
    (s t n : ℕ) (m : Memory)
    → IsApart s t (suc n)
    → (text (safestrcpy s t (suc n) m) s (suc n) ≡ text m t n)
      × ((a : ℕ) → within s (suc n) a ≡ false → safestrcpy s t (suc n) m a ≡ m a)
unfolding safestrcpy
safestrcpy_lem s t n m apart = (safe_copies s t n m apart, safe_outside s t n m)
