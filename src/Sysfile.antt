-- ===== src/Sysfile.antt =====
-- The file descriptors of kernel/sysfile.c: argfd, fdalloc, sys_dup and sys_close, over the table of
-- open files. The descriptors are those of the process that calls.
pub mod Counts
pub mod Descriptors
mod Tests
use os_project_cs.Prelude.{
  ℕ, zero, suc, ◌+◌, Bool, true, false, List, [], ◌∷◌, Option, none, some, ◌==◌, ltb, if◌then◌else◌,
  get_elem?, set, ℤ, pos, negsuc,
}
use os_project_cs.Outcome.{Outcome, ok, ◌>>=◌}
use os_project_cs.File.{Ftable, Closing, nothing, filedup, fileclose}

abbrev pub nofile : ℕ
nofile = 16

-- `ofile` of the process, and `ftable`.
pub record Files : Type 0 where
  pub ofile : List (Option ℕ)
  pub table : Ftable

-- The entry of `ofile`, or the null pointer behind its end.
abbrev pub entry : List (Option ℕ) → ℕ → Option ℕ
entry [] fd = none
entry (x ∷ l) zero = x
entry (x ∷ l) (suc fd) = entry l fd

-- `argfd` of an argument: the descriptor and its file, or nothing for -1.
unfoldable pub argfd : ℤ → Files → Option (ℕ × ℕ)
argfd (negsuc n) s = none
argfd (pos fd) s =
    if ltb fd nofile then elim (entry s.ofile fd) [ none ↦ none | some f ↦ some (fd, f) ] else none

-- The loop of `fdalloc` from descriptor `fd` on.
unfoldable pub fdalloc_rounds : ℕ → List (Option ℕ) → Option ℕ
fdalloc_rounds fd [] = none
fdalloc_rounds fd (none ∷ l) = some fd
fdalloc_rounds fd (some f ∷ l) = fdalloc_rounds (fd + 1) l

-- `fdalloc`: the descriptor, or nothing for -1.
unfoldable pub fdalloc : ℕ → Files → Option ℕ × Files
unfolding fdalloc_rounds
fdalloc f s =
    let found = fdalloc_rounds 0 s.ofile in
    (found, elim found [ none ↦ s | some fd ↦ record s { ofile = set s.ofile fd (some f) } ])

-- `filedup(f)`, and the descriptor returned.
unfoldable pub share : ℕ → Option ℕ × Files → Outcome (Option ℕ × Files)
unfolding filedup
share f (none, s) = ok (none, s)
share f (some fd, s) = do t ← filedup f s.table; ok (some fd, record s { table = t })

unfoldable pub sys_dup : ℤ → Files → Outcome (Option ℕ × Files)
unfolding argfd fdalloc share
sys_dup n s = elim (argfd n s) [ none ↦ ok (none, s) | some (_, f) ↦ share f (fdalloc f s) ]

-- `sys_close`: what `fileclose` gives back, or nothing for -1.
unfoldable pub sys_close : ℤ → Files → Outcome (Option Closing × Files)
unfolding argfd fileclose
sys_close n s = elim (argfd n s) [
  | none ↦ ok (none, s)
  | some (fd, f) ↦ do
    (closing, t) ← fileclose f s.table
    ok (some closing, record { ofile = set s.ofile fd none; table = t })
]
