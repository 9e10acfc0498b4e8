-- ===== src/Sysfile/Counts.antt =====
-- The descriptors of kernel/sysfile.c that refer to a file, and the lowest free one.
use os_project_cs.Prelude.{
  ℕ, zero, suc, ◌+◌, ◌<◌, ◌≤◌, ◌≡◌, ◌≢◌, refl, ◌∙◌, sym, ap, subst, true, List, [], ◌∷◌, Option,
  none, some, ◌==◌, ltb, if◌then◌else◌, get_elem?, set, length, arith, ◌⊎◌, inl, inr, ℤ, pos,
  negsuc, ==_refl, Bool-cases,
}
use mathlib.Core.Option.{some-injective, none-ne-some}
use os_project_cs.File.{File}
use os_project_cs.File.Holders.{Counted}
use os_project_cs.Sysfile.{Files, nofile, entry, argfd, fdalloc_rounds}

-- How many descriptors refer to file `f`.
abbrev pub count : List (Option ℕ) → ℕ → ℕ
count [] f = 0
count (none ∷ l) f = count l f
count (some g ∷ l) f = (if g == f then 1 else 0) + count l f

-- Each file counts the descriptors that refer to it, and the holders elsewhere.
pub record Owned (s : Files) (outside : ℕ → ℕ) : Type 0 where
  pub counted : Counted s.table (λ f. outside f + count s.ofile f)
  pub slots : length s.ofile ≡ nofile
  pub in_table : (fd f : ℕ) → entry s.ofile fd ≡ some f → f < length s.table.file

pub count_more :
    (l : List (Option ℕ)) (fd f g : ℕ)
    → fd < length l
    → entry l fd ≡ none
    → count (set l fd (some f)) g ≡ (if f == g then 1 else 0) + count l g
count_more [] fd f g l e = absurd (omega arith)
count_more (none ∷ l) zero f g u e = refl
count_more (some x ∷ l) zero f g u e = absurd (none-ne-some _ (sym e))
count_more (none ∷ l) (suc fd) f g u e = count_more l fd f g (omega arith) e
count_more (some x ∷ l) (suc fd) f g u e =
    let ih = count_more l fd f g (omega arith) e in omega (arith, ih)

pub count_fewer :
    (l : List (Option ℕ)) (fd f g : ℕ)
    → entry l fd ≡ some f
    → (if f == g then 1 else 0) + count (set l fd none) g ≡ count l g
count_fewer [] fd f g e = absurd (none-ne-some _ e)
count_fewer (none ∷ l) zero f g e = absurd (none-ne-some _ e)
count_fewer (some x ∷ l) zero f g e = let is : x ≡ f = some-injective _ _ e in rw is refl
count_fewer (none ∷ l) (suc fd) f g e = count_fewer l fd f g e
count_fewer (some x ∷ l) (suc fd) f g e = let ih = count_fewer l fd f g e in omega (arith, ih)

-- Which descriptor `fdalloc` finds.
pub data Free (fd : ℕ) (l : List (Option ℕ)) : Option ℕ → Type 0 where
  all_open : ((j : ℕ) → j < length l → entry l j ≢ none) → Free fd l none
  first_free :
      (j : ℕ)
      → j < length l
      → entry l j ≡ none
      → ((i : ℕ) → i < j → entry l i ≢ none)
      → Free fd l (some (fd + j))

pub free : (fd : ℕ) (l : List (Option ℕ)) → Free fd l (fdalloc_rounds fd l)
unfolding fdalloc_rounds
free fd [] = all_open (λ j l. absurd (omega arith))
free fd (none ∷ l) =
    let z : fd + 0 ≡ fd = omega arith in
    subst (λ n. Free fd (none ∷ l) (some n)) z
      (first_free 0 (omega arith) refl (λ i u. absurd (omega arith)))
free fd (some x ∷ l) = go (fdalloc_rounds (fd + 1) l) (free (fd + 1) l)
  where
    go : (o : Option ℕ) → Free (fd + 1) l o → Free fd (some x ∷ l) o
    go _ (all_open h) = all_open h'
      where
        h' : (j : ℕ) → j < length (some x ∷ l) → entry (some x ∷ l) j ≢ none
        h' zero u e = none-ne-some _ (sym e)
        h' (suc j) u e = h j (omega arith) e
    go _ (first_free j u e h) =
        let z : fd + suc j ≡ fd + 1 + j = omega arith in
        subst (λ n. Free fd (some x ∷ l) (some n)) z (first_free (suc j) (omega arith) e h')
      where
        h' : (i : ℕ) → i < suc j → entry (some x ∷ l) i ≢ none
        h' zero v f = none-ne-some _ (sym f)
        h' (suc i) v f = h i (omega arith) f

pub there : (fs : List File) (i : ℕ) → i < length fs → (h : File) × (get_elem? fs i ≡ some h)
there [] i l = absurd (omega arith)
there (h ∷ fs) zero l = (h, refl)
there (h ∷ fs) (suc i) l = there fs i (omega arith)

pub count_pos : (l : List (Option ℕ)) (fd f : ℕ) → entry l fd ≡ some f → 0 < count l f
count_pos l fd f e =
    let c = count_fewer l fd f f e in let t : (f == f) ≡ true = ==_refl f in ground arith

-- An entry after a write.
pub entry-set :
    (l : List (Option ℕ)) (fd i f : ℕ) (x : Option ℕ)
    → entry (set l fd x) i ≡ some f
    → (x ≡ some f) ⊎ (entry l i ≡ some f)
entry-set [] fd i f x e = inr e
entry-set (y ∷ l) zero zero f x e = inl e
entry-set (y ∷ l) zero (suc i) f x e = inr e
entry-set (y ∷ l) (suc fd) zero f x e = inr e
entry-set (y ∷ l) (suc fd) (suc i) f x e = entry-set l fd i f x e

-- How `argfd` ends.
pub data Argument (n : ℤ) (s : Files) : Option (ℕ × ℕ) → Type 0 where
  bad : ((fd f : ℕ) → n ≡ pos fd → fd < nofile → entry s.ofile fd ≢ some f) → Argument n s none
  good :
      (fd f : ℕ)
      → n ≡ pos fd
      → fd < nofile
      → entry s.ofile fd ≡ some f
      → Argument n s (some (fd, f))

-- One more than the number, or 0 below it.
abbrev rank : ℤ → ℕ
rank (pos n) = suc n
rank (negsuc n) = 0

pos-injective : {a b : ℕ} → pos a ≡ pos b → a ≡ b
pos-injective e = let r = ap rank e in omega arith

pub argument : (n : ℤ) (s : Files) → Argument n s (argfd n s)
unfolding argfd
argument (negsuc n) s = bad (λ fd f e. let r = ap rank e in absurd (omega arith))
argument (pos fd) s = elim (Bool-cases (ltb fd nofile)) [
  | inl t ↦ let l : fd < nofile = ground arith in rw t (go l (entry s.ofile fd) refl)
  | inr t ↦ rw t (
      bad (λ i f e l.
        let same = pos-injective e in let big : nofile ≤ fd = ground arith in absurd (omega arith)))
]
  where
    go :
        fd < nofile
        → (o : Option ℕ) → entry s.ofile fd ≡ o
        → Argument
            (pos fd)
            s
            (elim o as (λ _. Option (ℕ × ℕ)) [ none ↦ none | some f ↦ some (fd, f) ])
    go l none e =
        bad (λ i f same u is. none-ne-some _ (sym e ∙ ap (entry s.ofile) (pos-injective same) ∙ is))
    go l (some f) e = good fd f refl l e
