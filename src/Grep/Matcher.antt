-- ===== src/Grep/Matcher.antt =====
-- The matcher of user/grep.c decides what patterns mean.
use os_project_cs.Prelude.{
  ℕ, ◌≡◌, ◌↔◌, ◌⊎◌, inl, inr, refl, sym, ap, subst, Bool, true, false, ◌||◌, List, [], ◌∷◌, ◌++◌,
  ◌==◌, if◌then◌else◌, arith, Bool-cases,
}
use os_project_cs.Grep.{
  caret, dot, star, dollar, matchstar, match_one, at_end, matchhere, match_rounds, match_text,
}
use os_project_cs.Grep.Meaning.{Item, one, many, parse, stands_for, all_for, Matches, Occurs}

-- `here` decides `P`.
abbrev Decides : (List ℕ → Bool) → (List ℕ → Type 0) → Type 0
Decides here P = (t : List ℕ) → (here t ≡ true) ↔ P t

-- Where the rest of the pattern matches at once.
matchstar_none :
    (c : ℕ) (here : List ℕ → Bool) (t : List ℕ) → here t ≡ true → matchstar c here t ≡ true
unfolding matchstar
matchstar_none c here [] e = e
matchstar_none c here (x ∷ text) e = rw e refl

matchstar_more :
    (c x : ℕ) (here : List ℕ → Bool) (text : List ℕ)
    → stands_for c x ≡ true
    → matchstar c here text ≡ true
    → matchstar c here (x ∷ text) ≡ true
unfolding matchstar
matchstar_more c x here text s e =
    let t : ((x == c) || (c == dot)) ≡ true = ground arith in
    elim (Bool-cases (here (x ∷ text))) [ inl hit ↦ rw hit refl | inr miss ↦ rw (miss, t) e ]

-- How `matchstar` succeeds.
matchstar_cases :
    (c x : ℕ) (here : List ℕ → Bool) (text : List ℕ)
    → matchstar c here (x ∷ text) ≡ true
    → (here (x ∷ text) ≡ true) ⊎ ((stands_for c x ≡ true) × (matchstar c here text ≡ true))
unfolding matchstar
matchstar_cases c x here text e =
    go (here (x ∷ text)) (matchstar c here text) (Bool-cases (stands_for c x)) refl e
  where
    go :
        (hit rest : Bool)
        → (stands_for c x ≡ true) ⊎ (stands_for c x ≡ false)
        → matchstar c here text ≡ rest
        → (if hit then true else if (x == c) || (c == dot) then rest else false) ≡ true
        → (hit ≡ true) ⊎ ((stands_for c x ≡ true) × (matchstar c here text ≡ true))
    go true rest s r f = inl refl
    go false rest (inl s) r f =
        let t : ((x == c) || (c == dot)) ≡ true = ground arith in inr (s, ground arith)
    go false rest (inr s) r f = absurd (ground arith)

matchstar-Decides :
    (c : ℕ) (here : List ℕ → Bool) (items : List Item)
    → Decides here (Matches items)
    → Decides (matchstar c here) (Matches (many c ∷ items))
unfolding matchstar
matchstar-Decides c here items h t = (to t, λ m. from t (m.0) (m.1) (m.2) (m.3) (m.4))
  where
    to : (t : List ℕ) → matchstar c here t ≡ true → Matches (many c ∷ items) t
    to [] e = ([], [], refl, refl, (h []).0 e)
    to (x ∷ text) e = elim (matchstar_cases c x here text e) [
      | inl hit ↦ ([], x ∷ text, refl, refl, (h (x ∷ text)).0 hit)
      | inr (s, f) ↦
          let ih = to text f in (x ∷ ih.0, ih.1, ap (λ m. x ∷ m) (ih.2), rw (s, ih.3) refl, ih.4)
    ]

    from :
        (t run rest : List ℕ)
        → t ≡ run ++ rest
        → all_for c run ≡ true
        → Matches items rest
        → matchstar c here t ≡ true
    from t [] rest e all m = matchstar_none c here t ((h t).1 (subst (Matches items) (sym e) m))
    from t (x ∷ run) rest e all m =
        let first : stands_for c x ≡ true = ground arith in
        let others : all_for c run ≡ true = ground arith in
        subst (λ u. matchstar c here u ≡ true) (sym e)
          (matchstar_more c x here (run ++ rest) first (from (run ++ rest) run rest refl others m))

match_one-Decides :
    (c : ℕ) (here : List ℕ → Bool) (items : List Item)
    → Decides here (Matches items)
    → Decides (match_one c here) (Matches (one c ∷ items))
match_one-Decides c here items h t = (to t, λ m. from t (m.0) (m.1) (m.2) (m.3) (m.4))
  where
    to : (t : List ℕ) → match_one c here t ≡ true → Matches (one c ∷ items) t
    to [] e = absurd (ground arith)
    to (x ∷ text) e = elim (Bool-cases (stands_for c x)) [
      | inl s ↦ (x, text, refl, s, (h text).0 (ground arith))
      | inr s ↦ absurd (ground arith)
    ]

    from :
        (t : List ℕ) (x : ℕ) (rest : List ℕ)
        → t ≡ x ∷ rest
        → stands_for c x ≡ true
        → Matches items rest
        → match_one c here t ≡ true
    from t x rest e s m = subst (λ u. match_one c here u ≡ true) (sym e) (rw s ((h rest).1 m))

-- `matchhere` decides whether the items of the pattern match a piece at the start of the text.
pub matchhere-Decides : (re t : List ℕ) → (matchhere re t ≡ true) ↔ Matches (parse re) t
unfolding matchhere
matchhere-Decides [] t = ((λ e. refl), λ m. refl)
matchhere-Decides (c ∷ []) t = elim (Bool-cases (c == dollar)) [
  | inl last ↦ rw last (at_end-Decides t)
  | inr other ↦ rw other (match_one-Decides c (λ u. matchhere [] u) [] (matchhere-Decides []) t)
]
  where
    at_end-Decides : (t : List ℕ) → (at_end t ≡ true) ↔ (t ≡ [])
    at_end-Decides [] = ((λ e. refl), λ e. refl)
    at_end-Decides (x ∷ t) = ((λ e. absurd (ground arith)), λ e. ap at_end e)
matchhere-Decides (c ∷ d ∷ re) t = elim (Bool-cases (d == star)) [
  | inl starred ↦
      rw starred (matchstar-Decides c (λ u. matchhere re u) (parse re) (matchhere-Decides re) t)
  | inr other ↦ rw other (
      match_one-Decides c (λ u. matchhere (d ∷ re) u) (parse (d ∷ re)) (matchhere-Decides (d ∷ re))
        t)
]

-- The pattern matches a piece that starts somewhere in the text.
abbrev Somewhere : List ℕ → List ℕ → Type 0
Somewhere re t =
    (before : List ℕ) × (rest : List ℕ) × (t ≡ before ++ rest) × Matches (parse re) rest

rounds_here : (re t : List ℕ) → matchhere re t ≡ true → match_rounds re t ≡ true
unfolding match_rounds
rounds_here re [] e = e
rounds_here re (x ∷ text) e = rw e refl

rounds_later :
    (re : List ℕ) (x : ℕ) (text : List ℕ)
    → match_rounds re text ≡ true
    → match_rounds re (x ∷ text) ≡ true
unfolding match_rounds
rounds_later re x text e = elim (Bool-cases (matchhere re (x ∷ text))) [
  | inl hit ↦ rw hit refl
  | inr miss ↦ rw miss e
]

match_rounds-Decides : (re t : List ℕ) → (match_rounds re t ≡ true) ↔ Somewhere re t
unfolding match_rounds
match_rounds-Decides re t = (to t, λ m. from t (m.0) (m.1) (m.2) (m.3))
  where
    to : (t : List ℕ) → match_rounds re t ≡ true → Somewhere re t
    to [] e = ([], [], refl, (matchhere-Decides re []).0 e)
    to (x ∷ text) e = elim (Bool-cases (matchhere re (x ∷ text))) [
      | inl hit ↦ ([], x ∷ text, refl, (matchhere-Decides re (x ∷ text)).0 hit)
      | inr miss ↦ let ih = to text (skip miss e) in (x ∷ ih.0, ih.1, ap (λ m. x ∷ m) (ih.2), ih.3)
    ]
      where
        skip :
            matchhere re (x ∷ text) ≡ false
            → (if matchhere re (x ∷ text) then true else match_rounds re text) ≡ true
            → match_rounds re text ≡ true
        skip miss e = rw miss at e

    from :
        (t before rest : List ℕ)
        → t ≡ before ++ rest
        → Matches (parse re) rest
        → match_rounds re t ≡ true
    from t [] rest e m =
        rounds_here re t ((matchhere-Decides re t).1 (subst (Matches (parse re)) (sym e) m))
    from t (x ∷ before) rest e m =
        subst (λ u. match_rounds re u ≡ true) (sym e)
          (rounds_later re x (before ++ rest) (from (before ++ rest) before rest refl m))

-- `match` answers yes exactly where the pattern occurs in the text: at its start after a `^`, and
-- otherwise anywhere, with `.` for any byte, `*` for any number of what precedes it, and a last `$`
-- for the end of the text.
pub match_text-Occurs : (re t : List ℕ) → (match_text re t ≡ true) ↔ Occurs re t
unfolding match_text
match_text-Occurs [] t = ((λ e. refl), λ e. rounds_here [] t ((matchhere-Decides [] t).1 refl))
match_text-Occurs (c ∷ re) t = elim (Bool-cases (c == caret)) [
  | inl anchored ↦ rw anchored (matchhere-Decides re t)
  | inr free ↦ rw free (match_rounds-Decides (c ∷ re) t)
]
