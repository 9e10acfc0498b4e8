-- ===== src/Grep/Tests.antt =====
-- Runs of the matcher of user/grep.c.
use os_project_cs.Prelude.{◌≡◌, ◌↔◌, true, [], ◌∷◌}
use os_project_cs.Grep.{dot, star, dollar, match_text}
use os_project_cs.Grep.Meaning.{Occurs}
use os_project_cs.Grep.Matcher.{match_text-Occurs}

-- The pattern `b*.$` in the text `abbc`.
match_text-Occurs_example :
    (match_text (98 ∷ star ∷ dot ∷ dollar ∷ []) (97 ∷ 98 ∷ 98 ∷ 99 ∷ []) ≡ true)
    ↔ Occurs (98 ∷ star ∷ dot ∷ dollar ∷ []) (97 ∷ 98 ∷ 98 ∷ 99 ∷ [])
match_text-Occurs_example =
    match_text-Occurs (98 ∷ star ∷ dot ∷ dollar ∷ []) (97 ∷ 98 ∷ 98 ∷ 99 ∷ [])
