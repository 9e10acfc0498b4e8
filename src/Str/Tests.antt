-- ===== src/Str/Tests.antt =====
-- Runs of kernel/string.c at concrete memories.
use os_project_cs.Prelude.{◌≡◌, [], ◌∷◌, if◌then◌else◌, ◌==◌}
use os_project_cs.Str.{Memory, memmove, strncmp}
use os_project_cs.Str.Moves.{memmove_lem}
use os_project_cs.Str.Compare.{Says, strncmp-Says}

-- "abc" at 10 and "abd" at 20.
abbrev two_texts : Memory
two_texts a =
    if a == 10
    then 97
    else if a == 11
    then 98
    else if a == 12
    then 99
    else if a == 20
    then 97
    else if a == 21
    then 98
    else if a == 22
    then 100
    else 0

memmove_lem_example : memmove 11 10 3 two_texts 13 ≡ 99
memmove_lem_example = memmove_lem 11 10 3 two_texts 13

strncmp-Says_example : Says (strncmp 20 10 9 two_texts) (97 ∷ 98 ∷ 100 ∷ []) (97 ∷ 98 ∷ 99 ∷ [])
strncmp-Says_example = strncmp-Says 20 10 9 two_texts
