-- ===== src/Sysfile/Descriptors.antt =====
-- Files count the descriptors of kernel/sysfile.c that refer to them.
use os_project_cs.Prelude.{
  ℕ, ◌+◌, ◌-◌, ◌<◌, ◌≡◌, ◌≢◌, refl, ◌∙◌, sym, subst, fun_ext, true, false, List, Option, none, some,
  ◌==◌, if◌then◌else◌, get_elem?, set, length, length-set, update, arith, inl, inr, ℤ, pos, ==_ne,
  ℕ_discrete,
}
use mathlib.Core.Option.{some-injective, none-ne-some}
use os_project_cs.Outcome.{Outcome, ok, ◌>>=◌}
use os_project_cs.File.{File, Closing, to_close, still_open, fileclose}
use os_project_cs.File.Holders.{Counted, filedup-Duplicated, fileclose-Closed}
use os_project_cs.Sysfile.{
  Files, nofile, entry, argfd, fdalloc_rounds, fdalloc, share, sys_dup, sys_close,
}
use os_project_cs.Sysfile.Counts.{
  count, Owned, count_more, count_fewer, Free, free, there, count_pos, entry-set, Argument,
  argument, all_open, first_free, bad, good,
}

-- How `sys_dup` ends.
pub data Dup (n : ℤ) (s : Files) (outside : ℕ → ℕ) : Outcome (Option ℕ × Files) → Type 0 where
  not_open :
      ((fd f : ℕ) → n ≡ pos fd → fd < nofile → entry s.ofile fd ≢ some f)
      → Dup n s outside (ok (none, s))
  no_room : ((fd : ℕ) → fd < nofile → entry s.ofile fd ≢ none) → Dup n s outside (ok (none, s))
  shared :
      {t : Files} (old f fd : ℕ)
      → n ≡ pos old
      → entry s.ofile old ≡ some f
      → fd < nofile
      → entry s.ofile fd ≡ none
      → ((i : ℕ) → i < fd → entry s.ofile i ≢ none)
      → t.ofile ≡ set s.ofile fd (some f)
      → Owned t outside
      → Dup n s outside (ok (some fd, t))

-- The counts after a descriptor more for file `f`.
more_counts :
    (outside : ℕ → ℕ) (l : List (Option ℕ)) (fd f : ℕ)
    → fd < length l
    → entry l fd ≡ none
    → update (λ g. outside g + count l g) f (outside f + count l f + 1)
      ≡ (λ g. outside g + count (set l fd (some f)) g)
more_counts outside l fd f u e = fun_ext (λ g. at g (ℕ_discrete f g))
  where
    at :
        (g : ℕ)
        → Dec (f ≡ g)
        → (if f == g then outside f + count l f + 1 else outside g + count l g)
          ≡ outside g + count (set l fd (some f)) g
    at g (yes same) =
        let t : (f == g) ≡ true = ground arith in
        let c = count_more l fd f g u e in
        let d : count (set l fd (some f)) g ≡ 1 + count l g = c ∙ rw t refl in
        rw (t, d, same) (omega arith)
    at g (no ne) =
        let t : (f == g) ≡ false = ==_ne f g ne in
        let c = count_more l fd f g u e in
        let d : count (set l fd (some f)) g ≡ 0 + count l g = c ∙ rw t refl in
        rw (t, d) (omega arith)

-- `sys_dup` of an open descriptor takes the lowest free one for the same file, and every file then
-- still counts the descriptors that refer to it; with a bad argument or no free descriptor it fails
-- and changes nothing. It never panics.
pub sys_dup-Dup :
    (n : ℤ) (s : Files) (outside : ℕ → ℕ) → Owned s outside → Dup n s outside (sys_dup n s)
unfolding sys_dup fdalloc share
sys_dup-Dup n s outside h = go (argfd n s) (argument n s)
  where
    alloc :
        (old f : ℕ)
        → n ≡ pos old
        → entry s.ofile old ≡ some f
        → (o : Option ℕ) → Free 0 s.ofile o
        → Dup n s outside (
            share f (
              o,
              elim o as (λ _. Files) [
                | none ↦ s
                | some fd ↦ record s { ofile = set s.ofile fd (some f) }
              ],
            ))
    alloc old f e used _ (all_open full) =
        no_room (λ fd l. full fd (subst (λ k. fd < k) (sym h.slots) l))
    alloc old f e used _ (first_free j l unused first) =
        let here = there s.table.file f (h.in_table old f used) in
        let held = count_pos s.ofile old f used in
        let d =
          filedup-Duplicated f s.table (λ g. outside g + count s.ofile g) (here.0) h.counted
            (here.1) (omega arith) in
        let z : 0 + j ≡ j = omega arith in
        let slots = h.slots in
        let files = d.same_files in
        rw (z, d.runs)
          (shared old f j e used (omega arith) unused first refl (record {
            counted = subst (Counted d.rest) (more_counts outside s.ofile j f l unused) d.counted;
            slots = length-set s.ofile j (some f) ∙ slots;
            in_table = λ fd g at. elim (entry-set s.ofile j fd g (some f) at) [
              | inl is ↦
                  let same : f ≡ g = some-injective _ _ is in
                  let b = h.in_table old f used in omega arith
              | inr was ↦ let b = h.in_table fd g was in omega arith
            ];
          }))

    go :
        (a : Option (ℕ × ℕ))
        → Argument n s a
        → Dup n s outside (elim a as (λ _. Outcome (Option ℕ × Files)) [
          | none ↦ ok (none, s)
          | some (_, f) ↦ share f (fdalloc f s)
        ])
    go _ (bad h) = not_open h
    go _ (good old f e l used) = alloc old f e used (fdalloc_rounds 0 s.ofile) (free 0 s.ofile)

-- How `sys_close` ends.
pub data CloseEnd (n : ℤ) (s : Files) (outside : ℕ → ℕ)
    : Outcome (Option Closing × Files) → Type 0 where
  no_file :
      ((fd f : ℕ) → n ≡ pos fd → fd < nofile → entry s.ofile fd ≢ some f)
      → CloseEnd n s outside (ok (none, s))
  closed :
      {t : Files} (fd f : ℕ) (h : File) (closing : Closing)
      → n ≡ pos fd
      → entry s.ofile fd ≡ some f
      → get_elem? s.table.file f ≡ some h
      → t.ofile ≡ set s.ofile fd none
      → Owned t outside
      → (outside f + count s.ofile f ≡ 1 → closing ≡ to_close h)
      → (1 < outside f + count s.ofile f → closing ≡ still_open)
      → CloseEnd n s outside (ok (some closing, t))

-- The counts after a descriptor less for file `f`.
fewer_counts :
    (outside : ℕ → ℕ) (l : List (Option ℕ)) (fd f : ℕ)
    → entry l fd ≡ some f
    → update (λ g. outside g + count l g) f (outside f + count l f - 1)
      ≡ (λ g. outside g + count (set l fd none) g)
fewer_counts outside l fd f e = fun_ext (λ g. at g (ℕ_discrete f g))
  where
    at :
        (g : ℕ)
        → Dec (f ≡ g)
        → (if f == g then outside f + count l f - 1 else outside g + count l g)
          ≡ outside g + count (set l fd none) g
    at g (yes same) =
        let t : (f == g) ≡ true = ground arith in
        let d : 1 + count (set l fd none) g ≡ count l g = rw t at (count_fewer l fd f g e) in
        rw (t, same) (omega arith)
    at g (no ne) =
        let t : (f == g) ≡ false = ==_ne f g ne in
        let d : 0 + count (set l fd none) g ≡ count l g = rw t at (count_fewer l fd f g e) in
        rw t (omega arith)

-- `sys_close` of an open descriptor frees it, and every file then still counts the descriptors that
-- refer to it; what is behind the file is given back exactly when nobody else holds it. With a bad
-- argument it fails and changes nothing. It never panics.
pub sys_close-CloseEnd :
    (n : ℤ) (s : Files) (outside : ℕ → ℕ) → Owned s outside → CloseEnd n s outside (sys_close n s)
unfolding sys_close
sys_close-CloseEnd n s outside h = go (argfd n s) (argument n s)
  where
    go :
        (a : Option (ℕ × ℕ))
        → Argument n s a
        → CloseEnd n s outside (elim a as (λ _. Outcome (Option Closing × Files)) [
          | none ↦ ok (none, s)
          | some (fd, f) ↦ do
            (closing, t) ← fileclose f s.table
            ok (some closing, record { ofile = set s.ofile fd none; table = t })
        ])
    go _ (bad h) = no_file h
    go _ (good fd f e l used) =
        let here = there s.table.file f (h.in_table fd f used) in
        let held = count_pos s.ofile fd f used in
        let d =
          fileclose-Closed f s.table (λ g. outside g + count s.ofile g) (here.0) h.counted (here.1)
            (omega arith) in
        let slots = h.slots in
        let files = d.same_files in
        rw d.runs (
          closed fd f (here.0) d.closing e used (here.1) refl
            (record {
              counted = subst (Counted d.rest) (fewer_counts outside s.ofile fd f used) d.counted;
              slots = length-set s.ofile fd none ∙ slots;
              in_table = λ i g at. elim (entry-set s.ofile fd i g none at) [
                | inl is ↦ absurd (none-ne-some _ is)
                | inr was ↦ let b = h.in_table i g was in omega arith
              ];
            })
            d.last_holder d.other_holder)
