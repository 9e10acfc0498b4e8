-- ===== src/Grep/Meaning.antt =====
-- What a pattern of user/grep.c means: a sequence of items, each of which takes a piece of the text.
use os_project_cs.Prelude.{ℕ, ◌≡◌, Bool, true, ◌&&◌, ◌||◌, List, [], ◌∷◌, ◌++◌, ◌==◌, if◌then◌else◌}
use os_project_cs.Grep.{caret, dot, star, dollar}

pub data Item : Type 0 where
  one : ℕ → Item
  many : ℕ → Item
  finish : Item

abbrev pub parse : List ℕ → List Item
parse [] = []
parse (c ∷ []) = if c == dollar then finish ∷ [] else one c ∷ []
parse (c ∷ d ∷ re) = if d == star then many c ∷ parse re else one c ∷ parse (d ∷ re)

-- The character stands for the byte.
abbrev pub stands_for : ℕ → ℕ → Bool
stands_for c x = (c == dot) || (c == x)

abbrev pub all_for : ℕ → List ℕ → Bool
all_for c [] = true
all_for c (x ∷ run) = stands_for c x && all_for c run

-- The items match a piece at the start of the text.
abbrev pub Matches : List Item → List ℕ → Type 0
Matches [] text = text ≡ text
Matches (finish ∷ items) text = text ≡ []
Matches (one c ∷ items) text =
    (x : ℕ) × (rest : List ℕ) × (text ≡ x ∷ rest) × (stands_for c x ≡ true) × Matches items rest
Matches (many c ∷ items) text =
    (run : List ℕ) × (rest : List ℕ) × (text ≡ run ++ rest)
    × (all_for c run ≡ true)
    × Matches items rest

-- The pattern matches somewhere in the text, or at its start if it begins with `^`.
abbrev pub Occurs : List ℕ → List ℕ → Type 0
Occurs [] text = text ≡ text
Occurs (c ∷ re) text =
    if c == caret
    then Matches (parse re) text
    else (before : List ℕ) × (rest : List ℕ) × (text ≡ before ++ rest)
      × Matches (parse (c ∷ re)) rest
