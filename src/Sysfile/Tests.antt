-- ===== src/Sysfile/Tests.antt =====
-- Runs of kernel/sysfile.c: descriptor 1 refers to the first of two files.
use os_project_cs.Prelude.{
  ℕ, zero, suc, ◌+◌, ◌<◌, ◌≡◌, refl, ◌∙◌, ap, sym, true, false, [], ◌∷◌, none, some, arith,
  get_elem?, length, replicate, pos,
}
use mathlib.Core.Option.{some-injective, none-ne-some}
use os_project_cs.Spinlock.Section.{unlocked}
use os_project_cs.File.{File, fd_pipe, fd_none}
use os_project_cs.Sysfile.{Files, entry, sys_dup, sys_close}
use os_project_cs.Sysfile.Counts.{count, Owned}
use os_project_cs.Sysfile.Descriptors.{Dup, sys_dup-Dup, CloseEnd, sys_close-CloseEnd}

abbrev pipe_file : File
pipe_file = record {
  type = fd_pipe;
  ref = 1;
  readable = true;
  writable = false;
  pipe = 8192;
  ip = 0;
  off = 0;
  major = 0;
}

abbrev files : Files
files = record {
  ofile = none ∷ some 0 ∷ replicate 14 none;
  table = record {
    cpu = record { id = 0; noff = 0; intena = false; intr = true };
    lock = unlocked;
    file = pipe_file ∷ record pipe_file { ref = 0; type = fd_none } ∷ [];
  };
}

no_entry : (n fd : ℕ) → entry (replicate n none) fd ≡ none
no_entry zero fd = refl
no_entry (suc n) zero = refl
no_entry (suc n) (suc fd) = no_entry n fd

files-Owned : Owned files (λ f. 0)
files-Owned = record {
  counted = record {
    free = record { settled = refl; unlocked = refl; unowned = refl };
    exact = exact;
  };
  slots = refl;
  in_table = in_table;
}
  where
    exact :
        (f : ℕ) (h : File) → get_elem? files.table.file f ≡ some h → h.ref ≡ 0 + count files.ofile f
    exact zero h e = ap (λ g. g.ref) (some-injective _ _ (sym e))
    exact (suc zero) h e = ap (λ g. g.ref) (some-injective _ _ (sym e))
    exact (suc (suc i)) h e = absurd (none-ne-some _ e)

    in_table : (fd f : ℕ) → entry files.ofile fd ≡ some f → f < length files.table.file
    in_table zero f e = absurd (none-ne-some _ e)
    in_table (suc zero) f e = let is : 0 ≡ f = some-injective _ _ e in omega arith
    in_table (suc (suc fd)) f e = absurd (none-ne-some _ (sym (no_entry 14 fd) ∙ e))

sys_dup-Dup_example : Dup (pos 1) files (λ f. 0) (sys_dup (pos 1) files)
sys_dup-Dup_example = sys_dup-Dup (pos 1) files (λ f. 0) files-Owned

sys_close-CloseEnd_example : CloseEnd (pos 1) files (λ f. 0) (sys_close (pos 1) files)
sys_close-CloseEnd_example = sys_close-CloseEnd (pos 1) files (λ f. 0) files-Owned
