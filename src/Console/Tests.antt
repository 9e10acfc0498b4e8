-- ===== src/Console/Tests.antt =====
-- Runs of kernel/console.c: an empty console, and one with a ready line and a byte typed after it.
use os_project_cs.Prelude.{
  ℕ, zero, suc, ◌+◌, ◌%◌, ◌≡◌, ◌≢◌, refl, true, false, [], ◌∷◌, some, ◌==◌, if◌then◌else◌,
  get_elem?, arith,
}
use mathlib.Core.Option.{some-injective, none-ne-some}
use os_project_cs.Spinlock.Section.{IsFree, unlocked}
use os_project_cs.Console.{Console, newline}
use os_project_cs.Console.Lines.{Lines, Input}
use os_project_cs.Console.Reading.{Read, consoleread-Read}

-- The line `hi`, and then `a`; the counters are about to wrap.
abbrev busy : Console
busy = record {
  cpu = record { id = 0; noff = 0; intena = false; intr = true };
  lock = unlocked;
  panicked = false;
  buf = λ i. if i == 126 then 104 else if i == 127 then 105 else if i == 0 then newline else 97;
  r = 4294967294;
  w = 1;
  e = 2;
  sent = [];
  woken = 0;
}

abbrev lines : Lines
lines = record { ready = 104 ∷ 105 ∷ newline ∷ []; edit = 97 ∷ [] }

busy-IsFree : IsFree busy.cpu busy.lock
busy-IsFree = record { settled = refl; unlocked = refl; unowned = refl }

busy-Input : Input busy lines
busy-Input = record {
  small = omega arith;
  bounded = omega arith;
  written = refl;
  edited = refl;
  holds = holds;
  one_line = one_line;
}
  where
    holds :
        (j x : ℕ)
        → get_elem? (104 ∷ 105 ∷ newline ∷ 97 ∷ []) j ≡ some x
        → busy.buf ((busy.r + j) % 128) ≡ x
    holds zero x h = some-injective _ _ h
    holds (suc zero) x h = some-injective _ _ h
    holds (suc (suc zero)) x h = some-injective _ _ h
    holds (suc (suc (suc zero))) x h = some-injective _ _ h
    holds (suc (suc (suc (suc j)))) x h = absurd (none-ne-some _ h)

    one_line : (j x : ℕ) → get_elem? lines.edit j ≡ some x → x ≢ newline
    one_line zero x h e = let f : 97 ≡ x = some-injective _ _ h in omega arith
    one_line (suc j) x h e = absurd (none-ne-some _ h)

consoleread-Read_example : Read (λ i. true) false 10 10 busy lines
consoleread-Read_example =
    consoleread-Read (λ i. true) false 10 10 busy lines (omega arith) busy-IsFree busy-Input
