-- ===== src/Grep.antt =====
-- The matcher of user/grep.c: match, matchhere and matchstar. A pattern and a text are the lists of
-- their bytes before the 0.
pub mod Meaning
pub mod Matcher
mod Tests
use os_project_cs.Prelude.{
  ℕ, Bool, true, false, not, ◌&&◌, ◌||◌, List, [], ◌∷◌, ◌==◌, if◌then◌else◌,
}

-- The characters `^`, `.`, `*` and `$`.
abbrev pub caret : ℕ
caret = 94

abbrev pub dot : ℕ
dot = 46

abbrev pub star : ℕ
star = 42

abbrev pub dollar : ℕ
dollar = 36

-- `matchstar`, where `here` is `matchhere` with the pattern that follows the `*`.
unfoldable pub matchstar : ℕ → (List ℕ → Bool) → List ℕ → Bool
matchstar c here [] = here []
matchstar c here (x ∷ text) =
    let rest = matchstar c here text in
    if here (x ∷ text) then true else if (x == c) || (c == dot) then rest else false

-- `*text!='\0' && (re[0]=='.' || re[0]==*text)` and what then follows.
abbrev pub match_one : ℕ → (List ℕ → Bool) → List ℕ → Bool
match_one c here [] = false
match_one c here (x ∷ text) = if (c == dot) || (c == x) then here text else false

abbrev pub at_end : List ℕ → Bool
at_end [] = true
at_end _ = false

unfoldable pub matchhere : List ℕ → List ℕ → Bool
unfolding matchstar
matchhere [] text = true
matchhere (c ∷ []) text =
    if c == dollar then at_end text else match_one c (λ t. matchhere [] t) text
matchhere (c ∷ d ∷ re) text =
    if d == star
    then matchstar c (λ t. matchhere re t) text
    else match_one c (λ t. matchhere (d ∷ re) t) text

-- The loop of `match`.
unfoldable pub match_rounds : List ℕ → List ℕ → Bool
unfolding matchhere
match_rounds re [] = matchhere re []
match_rounds re (x ∷ text) =
    let rest = match_rounds re text in if matchhere re (x ∷ text) then true else rest

unfoldable pub match_text : List ℕ → List ℕ → Bool
unfolding matchhere match_rounds
match_text [] text = match_rounds [] text
match_text (c ∷ re) text = if c == caret then matchhere re text else match_rounds (c ∷ re) text
