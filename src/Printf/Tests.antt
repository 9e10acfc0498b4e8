-- ===== src/Printf/Tests.antt =====
-- Numbers printed by kernel/printf.c and user/printf.c.
use os_project_cs.Prelude.{ℕ, ◌-◌, ◌^◌, ◌≤◌, ◌≡◌, ◌↔◌, true, List, none, some, arith}
use os_project_cs.Printf.{printint, user_printint, atoi}
use os_project_cs.Printf.Digits.{limit, magnitude, printint-overflow}
use os_project_cs.Printf.Back.{atoi-user_printint}

-- The number -10 ^ 15, of 16 digits and a sign.
printint-overflow_example :
    (printint (2 ^ 64 - 10 ^ 15) 10 true ≡ none)
    ↔ (limit (2 ^ 64 - 10 ^ 15) true ≤ magnitude (2 ^ 64 - 10 ^ 15) true)
printint-overflow_example = printint-overflow (2 ^ 64 - 10 ^ 15) true (omega arith)

atoi-user_printint_example :
    (text : List ℕ) × (user_printint 1905 10 true ≡ some text) × (atoi text ≡ 1905)
atoi-user_printint_example = atoi-user_printint 1905 true (omega arith)
