-- ===== src/Proc/Wait/Reap.antt =====
-- The scan of `wait` (kernel/proc.c) over the table: which child it reaps.
use os_project_cs.Prelude.{
  ℕ, ◌≡◌, refl, Bool, true, false, ◌&&◌, ◌||◌, subst, List, [], ◌∷◌, ◌++◌, inl, inr, ◌⊎◌,
  Bool-cases,
}
use os_project_cs.Outcome.{ok}
use os_project_cs.Spinlock.{Cpu, is_cpu}
use os_project_cs.Spinlock.Nesting.{IsSettled}
use os_project_cs.Spinlock.Section.{after, release_held}
use os_project_cs.Proc.{Proc, Freed, is_zombie, cleared, handed_back}
use os_project_cs.Proc.Quiet.{AllFree, acquire_slot}
use os_project_cs.Proc.Alloc.{emptied}
use os_project_cs.Proc.Wait.{Scan, reaped, not_copied, no_zombie, have_kids, wait_slot, wait_rounds}

-- A child of the process at slot `me` that has exited.
abbrev pub exited_child : ℕ → Proc → Bool
exited_child me p = is_cpu p.parent me && is_zombie p.state

-- No slot has an exited child.
abbrev pub NoneExited : ℕ → List Proc → Type 0
NoneExited me [] = Unit
NoneExited me (p ∷ ps) = (exited_child me p ≡ false) × NoneExited me ps

abbrev pub any_child : ℕ → List Proc → Bool
any_child me [] = false
any_child me (p ∷ ps) = is_cpu p.parent me || any_child me ps

-- What the scan finds and leaves: the first exited child is reaped, or kept if its status cannot be
-- copied out; without one the answer is whether there is a child at all.
pub data Scanned (me : ℕ) (copied : Bool) : List Proc → Scan → List Proc → List Freed → Type 0 where
  reaps :
      (before : List Proc) (p : Proc) (rest : List Proc)
      → NoneExited me before
      → exited_child me p ≡ true
      → copied ≡ true
      → Scanned me copied
          (before ++ p ∷ rest)
          (reaped p.pid)
          (before ++ emptied p ∷ rest)
          (handed_back p)
  keeps :
      (before : List Proc) (p : Proc) (rest : List Proc)
      → NoneExited me before
      → exited_child me p ≡ true
      → copied ≡ false
      → Scanned me copied (before ++ p ∷ rest) not_copied (before ++ p ∷ rest) []
  nothing :
      (ps : List Proc) → NoneExited me ps → Scanned me copied ps (no_zombie (any_child me ps)) ps []

Scanned-more :
    {me : ℕ} {copied : Bool} {ps qs : List Proc} {e : Scan} {fs : List Freed} (p : Proc)
    (kid : Bool)
    → exited_child me p ≡ false
    → is_cpu p.parent me ≡ kid
    → Scanned me copied ps e qs fs
    → Scanned me copied (p ∷ ps) (have_kids kid e) (p ∷ qs) fs
Scanned-more p true x k (reaps before q rest n y c) = reaps (p ∷ before) q rest (x, n) y c
Scanned-more p false x k (reaps before q rest n y c) = reaps (p ∷ before) q rest (x, n) y c
Scanned-more p true x k (keeps before q rest n y c) = keeps (p ∷ before) q rest (x, n) y c
Scanned-more p false x k (keeps before q rest n y c) = keeps (p ∷ before) q rest (x, n) y c
Scanned-more {me} {copied} p true x k (nothing ps n) =
    let all : any_child me (p ∷ ps) ≡ true = rw k refl in
    subst (λ b. Scanned me copied (p ∷ ps) (no_zombie b) (p ∷ ps) []) all (nothing (p ∷ ps) (x, n))
Scanned-more {me} {copied} p false x k (nothing ps n) =
    let all : any_child me (p ∷ ps) ≡ any_child me ps = rw k refl in
    subst (λ b. Scanned me copied (p ∷ ps) (no_zombie b) (p ∷ ps) []) all (nothing (p ∷ ps) (x, n))

pub record Pass (me : ℕ) (copied : Bool) (c : Cpu) (ps : List Proc) : Type 0 where
  pub found : Scan
  pub procs : List Proc
  pub freed : List Freed
  pub runs : wait_rounds me copied c ps ≡ ok (found, c, procs, freed)
  pub scanned : Scanned me copied ps found procs freed
  pub free : AllFree procs

pub pass :
    (me : ℕ) (copied : Bool) (c : Cpu) (ps : List Proc)
    → IsSettled c
    → after c ≡ c
    → AllFree ps
    → Pass me copied c ps
unfolding wait_rounds wait_slot cleared
pass me copied c [] h in_section f = record {
  found = no_zombie false;
  procs = [];
  freed = [];
  runs = refl;
  scanned = nothing [] tt;
  free = tt;
}
pass me copied c (p ∷ ps) h in_section (e, f) =
    go (pass me copied c ps h in_section f) (Bool-cases (is_cpu p.parent me))
      (Bool-cases (is_zombie p.state)) (Bool-cases copied)
  where
    go :
        Pass me copied c ps
        → (is_cpu p.parent me ≡ true) ⊎ (is_cpu p.parent me ≡ false)
        → (is_zombie p.state ≡ true) ⊎ (is_zombie p.state ≡ false)
        → (copied ≡ true) ⊎ (copied ≡ false)
        → Pass me copied c (p ∷ ps)
    go rest (inr other) z d = record {
      found = have_kids false rest.found;
      procs = p ∷ rest.procs;
      freed = rest.freed;
      runs = rw (other, rest.runs);
      scanned = Scanned-more p false (rw other refl) other rest.scanned;
      free = (e, rest.free);
    }
    go rest (inl mine) (inr alive) d = record {
      found = have_kids true rest.found;
      procs = p ∷ rest.procs;
      freed = rest.freed;
      runs =
          rw (mine, alive, acquire_slot c p.lock e, release_held c h, in_section, rest.runs, ← e)
            refl;
      scanned = Scanned-more p true (rw (mine, alive) refl) mine rest.scanned;
      free = (e, rest.free);
    }
    go rest (inl mine) (inl exited) (inl could) = record {
      found = reaped p.pid;
      procs = emptied p ∷ ps;
      freed = handed_back p;
      runs = rw (mine, exited, could, acquire_slot c p.lock e, release_held c h, in_section) refl;
      scanned = reaps [] p ps tt (rw (mine, exited) refl) could;
      free = (refl, f);
    }
    go rest (inl mine) (inl exited) (inr could_not) = record {
      found = not_copied;
      procs = p ∷ ps;
      freed = [];
      runs =
          rw (mine, exited, could_not, acquire_slot c p.lock e, release_held c h, in_section, ← e)
            refl;
      scanned = keeps [] p ps tt (rw (mine, exited) refl) could_not;
      free = (e, f);
    }
