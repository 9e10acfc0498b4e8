-- ===== src/File/Holders.antt =====
-- The count of references of kernel/file.c against the pointers that are held.
use os_project_cs.Prelude.{
  length, length-set, ℕ, zero, suc, ◌+◌, ◌-◌, ◌≡◌, refl, ◌∙◌, true, false, List, [], ◌∷◌, Option,
  none, some, ltb, ◌==◌, get_elem?, set, get_elem?-set_self, get_elem?-set_ne, get_elem?-bound,
  arith, sym, ap, ◌<◌, update, ℕ_discrete, subst, Bool-cases, inl, inr,
}
use mathlib.Core.Option.{some-injective, none-ne-some}
use os_project_cs.Outcome.{Outcome, ok, blocked}
use os_project_cs.Spinlock.Section.{
  IsFree, unlocked, after, after-IsFree, acquire_free, release_held,
}
use os_project_cs.File.{
  File, fd_none, Ftable, alloc_rounds, filealloc, at_file, filedup, Closing, still_open, to_close,
  fileclose,
}

-- Each file counts as many references as there are holders of it.
pub record Counted (s : Ftable) (holders : ℕ → ℕ) : Type 0 where
  pub free : IsFree s.cpu s.lock
  pub exact : (i : ℕ) (f : File) → get_elem? s.file i ≡ some f → f.ref ≡ holders i

at_file-some :
    {A : Type 0} (s : Ftable) (i : ℕ) (f : File) (g : File → Outcome A)
    → get_elem? s.file i ≡ some f
    → at_file s i g ≡ g f
at_file-some {A = A} s i f g e =
    ap (λ o. elim o as (λ _. Outcome A) [ none ↦ blocked | some h ↦ g h ]) e

-- One file written, and one count with it.
exact-set :
    (fs : List File) (holders : ℕ → ℕ) (i n : ℕ) (f g : File)
    → get_elem? fs i ≡ some f
    → g.ref ≡ n
    → ((j : ℕ) (h : File) → get_elem? fs j ≡ some h → h.ref ≡ holders j)
    → (j : ℕ) (h : File) → get_elem? (set fs i g) j ≡ some h
    → h.ref ≡ update holders i n j
exact-set fs holders i n f g at e exact j h found = elim (ℕ_discrete i j) [
  | yes same ↦
      let t : (i == j) ≡ true = ground arith in
      let here : get_elem? (set fs i g) j ≡ some g =
        subst (λ k. get_elem? (set fs i g) k ≡ some g) same
          (get_elem?-set_self fs i g (get_elem?-bound fs i at)) in
      let is : h.ref ≡ n = ap (λ k. k.ref) (some-injective _ _ (sym found ∙ here)) ∙ e in rw t is
  | no other ↦
      let t : (i == j) ≡ false = ground arith in
      rw t (exact j h (sym (get_elem?-set_ne fs g other) ∙ found))
]

pub record Duplicated (i : ℕ) (s : Ftable) (holders : ℕ → ℕ) : Type 0 where
  pub rest : Ftable
  pub runs : filedup i s ≡ ok rest
  pub counted : Counted rest (update holders i (holders i + 1))
  pub same_files : length rest.file ≡ length s.file

-- `filedup` of a file that has a holder does not panic, and counts one holder more.
pub filedup-Duplicated :
    (i : ℕ) (s : Ftable) (holders : ℕ → ℕ) (f : File)
    → Counted s holders
    → get_elem? s.file i ≡ some f
    → 0 < holders i
    → Duplicated i s holders
unfolding filedup
filedup-Duplicated i s holders f h at held =
    let is = h.exact i f at in
    let alive : ltb f.ref 1 ≡ false = ground arith in
    record {
      rest = record {
        cpu = after s.cpu;
        lock = unlocked;
        file = set s.file i (record f { ref = f.ref + 1 });
      };
      runs =
          at_file-some s i f _ at
          ∙ rw (acquire_free s.cpu s.lock h.free.unlocked, alive, release_held s.cpu h.free.settled)
              refl;
      counted = record {
        free = after-IsFree s.cpu h.free.settled;
        exact =
            exact-set s.file holders i (holders i + 1) f (record f { ref = f.ref + 1 }) at
              (ap (λ n. n + 1) is) h.exact;
      };
      same_files = length-set s.file i (record f { ref = f.ref + 1 });
    }

pub record Closed (i : ℕ) (s : Ftable) (holders : ℕ → ℕ) (f : File) : Type 0 where
  pub rest : Ftable
  pub closing : Closing
  pub runs : fileclose i s ≡ ok (closing, rest)
  pub counted : Counted rest (update holders i (holders i - 1))
  pub same_files : length rest.file ≡ length s.file
  pub last_holder : holders i ≡ 1 → closing ≡ to_close f
  pub other_holder : 1 < holders i → closing ≡ still_open

-- `fileclose` by a holder does not panic and counts one holder less; the pipe or the inode behind the
-- file is given back exactly when this was the last holder.
pub fileclose-Closed :
    (i : ℕ) (s : Ftable) (holders : ℕ → ℕ) (f : File)
    → Counted s holders
    → get_elem? s.file i ≡ some f
    → 0 < holders i
    → Closed i s holders f
unfolding fileclose
fileclose-Closed i s holders f h at held = elim (Bool-cases (ltb 0 (f.ref - 1))) [
  | inl others ↦ record {
    rest = record {
      cpu = after s.cpu;
      lock = unlocked;
      file = set s.file i (record f { ref = f.ref - 1 });
    };
    closing = still_open;
    runs =
        at_file-some s i f _ at
        ∙ rw
            (
              acquire_free s.cpu s.lock h.free.unlocked,
              alive,
              release_held s.cpu h.free.settled,
              others,
            )
            refl;
    counted = record {
      free = after-IsFree s.cpu h.free.settled;
      exact =
          exact-set s.file holders i (holders i - 1) f (record f { ref = f.ref - 1 }) at
            (ap (λ n. n - 1) is) h.exact;
    };
    same_files = length-set s.file i (record f { ref = f.ref - 1 });
    last_holder = λ e. let known = is in absurd (ground arith);
    other_holder = λ e. refl;
  }
  | inr nobody ↦ record {
    rest = record {
      cpu = after s.cpu;
      lock = unlocked;
      file = set s.file i (record f { ref = 0; type = fd_none });
    };
    closing = to_close f;
    runs =
        at_file-some s i f _ at
        ∙ rw
            (
              acquire_free s.cpu s.lock h.free.unlocked,
              alive,
              release_held s.cpu h.free.settled,
              nobody,
            )
            refl;
    counted = record {
      free = after-IsFree s.cpu h.free.settled;
      exact =
          exact-set s.file holders i (holders i - 1) f (record f { ref = 0; type = fd_none }) at
            (let e = is in ground arith) h.exact;
    };
    same_files = length-set s.file i (record f { ref = 0; type = fd_none });
    last_holder = λ e. refl;
    other_holder = λ e. let known = is in absurd (ground arith);
  }
]
  where
    is : f.ref ≡ holders i
    is = h.exact i f at

    alive : ltb f.ref 1 ≡ false
    alive = let e = is in ground arith

-- What the loop of `filealloc` finds from file `i` on.
data Search (i : ℕ) : List File → Option ℕ × List File → Type 0 where
  all_taken :
      {fs : List File}
      → ((j : ℕ) (f : File) → get_elem? fs j ≡ some f → 0 < f.ref)
      → Search i fs (none, fs)
  takes :
      {fs : List File} (j : ℕ) (f : File)
      → get_elem? fs j ≡ some f
      → f.ref ≡ 0
      → Search i fs (some (i + j), set fs j (record f { ref = 1 }))

search : (i : ℕ) (fs : List File) → Search i fs (alloc_rounds i fs)
unfolding alloc_rounds
search i [] = all_taken (λ j f e. absurd (none-ne-some _ e))
search i (f ∷ fs) = elim (Bool-cases (f.ref == 0)) [
  | inl idle ↦
      let z : i + 0 ≡ i = omega arith in
      rw idle (
        subst (λ k. Search i (f ∷ fs) (some k, record f { ref = 1 } ∷ fs)) z
          (takes 0 f refl (ground arith)))
  | inr busy ↦ rw busy (more busy (alloc_rounds (i + 1) fs) (search (i + 1) fs))
]
  where
    more :
        (f.ref == 0) ≡ false
        → (r : Option ℕ × List File) → Search (i + 1) fs r
        → Search i (f ∷ fs) (r.0, f ∷ r.1)
    more busy r (all_taken held) = all_taken held'
      where
        held' : (j : ℕ) (g : File) → get_elem? (f ∷ fs) j ≡ some g → 0 < g.ref
        held' zero g e =
            let same : f.ref ≡ g.ref = ap (λ k. k.ref) (some-injective _ _ e) in
            ground (arith, busy)
        held' (suc j) g e = held j g e
    more busy r (takes j g at none_held) =
        let z : i + suc j ≡ i + 1 + j = omega arith in
        subst (λ k. Search i (f ∷ fs) (some k, f ∷ set fs j (record g { ref = 1 }))) z
          (takes (suc j) g at none_held)

-- How `filealloc` ends.
pub data Allocated (s : Ftable) (holders : ℕ → ℕ) : Outcome (Option ℕ × Ftable) → Type 0 where
  no_file :
      {t : Ftable}
      → ((i : ℕ) (f : File) → get_elem? s.file i ≡ some f → 0 < holders i)
      → Counted t holders
      → Allocated s holders (ok (none, t))
  new_file :
      {t : Ftable} (i : ℕ)
      → holders i ≡ 0
      → Counted t (update holders i 1)
      → Allocated s holders (ok (some i, t))

-- `filealloc` hands out a file without a holder, and counts its one new holder; it returns the null
-- pointer only if every file has a holder.
pub filealloc-Allocated :
    (s : Ftable) (holders : ℕ → ℕ) → Counted s holders → Allocated s holders (filealloc s)
unfolding filealloc
filealloc-Allocated s holders h =
    rw (acquire_free s.cpu s.lock h.free.unlocked, release_held s.cpu h.free.settled)
      (go (alloc_rounds 0 s.file) (search 0 s.file))
  where
    go :
        (r : Option ℕ × List File)
        → Search 0 s.file r
        → Allocated s holders (ok (r.0, record { cpu = after s.cpu; lock = unlocked; file = r.1 }))
    go r (all_taken held) =
        no_file (λ i f at. subst (λ n. 0 < n) (h.exact i f at) (held i f at))
          record { free = after-IsFree s.cpu h.free.settled; exact = h.exact }
    go r (takes j f at zero_refs) =
        let z : 0 + j ≡ j = omega arith in
        new_file (0 + j) (rw z (sym (h.exact j f at) ∙ zero_refs)) record {
          free = after-IsFree s.cpu h.free.settled;
          exact =
              subst
                (λ k.
                  (i : ℕ) (g : File)
                  → get_elem? (set s.file j (record f { ref = 1 })) i ≡ some g
                  → g.ref ≡ update holders k 1 i)
                (sym z) (exact-set s.file holders j 1 f (record f { ref = 1 }) at refl h.exact);
        }
