-- ===== src/File/Tests.antt =====
-- Runs of kernel/file.c at a table of two files.
use os_project_cs.Prelude.{
  ℕ, zero, suc, ◌≡◌, refl, true, false, [], ◌∷◌, some, get_elem?, if◌then◌else◌, ◌==◌,
}
use mathlib.Core.Option.{some-injective, none-ne-some}
use os_project_cs.Prelude.{ap, sym}
use os_project_cs.Spinlock.Section.{unlocked}
use os_project_cs.File.{File, FileType, Ftable}
use os_project_cs.File.Holders.{Counted}

abbrev file_with : FileType → ℕ → File
file_with t n = record {
  type = t;
  ref = n;
  readable = true;
  writable = false;
  pipe = 8192;
  ip = 0;
  off = 0;
  major = 0;
}

abbrev two_files : Ftable
two_files = record {
  cpu = record { id = 0; noff = 0; intena = false; intr = true };
  lock = unlocked;
  file = file_with FileType.fd_pipe 1 ∷ file_with FileType.fd_none 0 ∷ [];
}

abbrev one_holder : ℕ → ℕ
one_holder i = if i == 0 then 1 else 0

two_files-Counted : Counted two_files one_holder
two_files-Counted = record {
  free = record { settled = refl; unlocked = refl; unowned = refl };
  exact = exact;
}
  where
    exact : (i : ℕ) (f : File) → get_elem? two_files.file i ≡ some f → f.ref ≡ one_holder i
    exact zero f e = ap (λ g. g.ref) (some-injective _ _ (sym e))
    exact (suc zero) f e = ap (λ g. g.ref) (some-injective _ _ (sym e))
    exact (suc (suc i)) f e = absurd (none-ne-some _ e)
