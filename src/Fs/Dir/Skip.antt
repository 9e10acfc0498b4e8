-- ===== src/Fs/Dir/Skip.antt =====
-- `skipelem` of kernel/fs.c: the first element of a path and what follows it.
use os_project_cs.Prelude.{
  ℕ, zero, suc, ◌<◌, ◌≤◌, ◌≡◌, ◌≢◌, ◌⊎◌, inl, inr, refl, ◌∙◌, sym, ap, true, false, ◌||◌, List, [],
  ◌∷◌, ◌++◌, Option, none, some, ◌==◌, leb, if◌then◌else◌, arith, update, get_elem?, length, take,
  replicate, Bool-cases, dec_lt, get_elem?-bound, lt→leb-false, ==_refl, ==_ne, subst,
}
use mathlib.Core.Option.{some-injective, none-ne-some}
use os_project_cs.Fs.Inode.{Bytes}
use os_project_cs.Fs.Dir.{
  dirsiz, slash, skip_slashes, skip_name, copied, skipelem, is_absolute, is_empty,
}

-- `rest` is the path without the slashes at its start.
record Stripped (path rest : List ℕ) : Type 0 where
  count : ℕ
  same : path ≡ replicate count slash ++ rest
  no_slash : is_absolute rest ≡ false

skip_slashes-Stripped : (path : List ℕ) → Stripped path (skip_slashes path)
unfolding skip_slashes
skip_slashes-Stripped [] = record { count = 0; same = refl; no_slash = refl }
skip_slashes-Stripped (c ∷ l) = go (Bool-cases (c == slash)) (skip_slashes-Stripped l)
  where
    go :
        ((c == slash) ≡ true) ⊎ ((c == slash) ≡ false)
        → Stripped l (skip_slashes l)
        → Stripped (c ∷ l) (if c == slash then skip_slashes l else c ∷ l)
    go (inl t) h =
        let e : c ≡ slash = ground arith in
        rw t (record {
          count = suc h.count;
          same = ap (λ x. x ∷ l) e ∙ ap (λ m. slash ∷ m) h.same;
          no_slash = h.no_slash;
        })
    go (inr f) h = rw f (record { count = 0; same = refl; no_slash = f })

-- No byte of the text is a slash.
abbrev pub HasNoSlash : List ℕ → Type 0
HasNoSlash elem = (i c : ℕ) → get_elem? elem i ≡ some c → c ≢ slash

record Split (l : List ℕ) (s : List ℕ × List ℕ) : Type 0 where
  same : l ≡ s.0 ++ s.1
  plain : HasNoSlash (s.0)
  ends : (is_empty (s.1) || is_absolute (s.1)) ≡ true

skip_name-Split : (l : List ℕ) → Split l (skip_name l)
unfolding skip_name
skip_name-Split [] = record { same = refl; plain = λ i c h. absurd (none-ne-some _ h); ends = refl }
skip_name-Split (c ∷ l) = go (Bool-cases (c == slash)) (skip_name l) (skip_name-Split l)
  where
    go :
        ((c == slash) ≡ true) ⊎ ((c == slash) ≡ false)
        → (rest : List ℕ × List ℕ) → Split l rest
        → Split (c ∷ l) (if c == slash then ([], c ∷ l) else (c ∷ rest.0, rest.1))
    go (inl t) rest h =
        rw t (record { same = refl; plain = λ i d e. absurd (none-ne-some _ e); ends = t })
    go (inr f) rest h =
        rw f (record { same = ap (λ m. c ∷ m) h.same; plain = plain'; ends = h.ends })
      where
        plain' : HasNoSlash (c ∷ rest.0)
        plain' zero d e = let is : c ≡ d = some-injective _ _ e in λ slashed. ground arith
        plain' (suc i) d e = h.plain i d e

-- The name buffer after an element was copied into it: its first 14 bytes, and a 0 behind a shorter
-- one.
pub record IsName (elem : List ℕ) (name name' : Bytes) : Type 0 where
  pub text : (j c : ℕ) → j < dirsiz → get_elem? elem j ≡ some c → name' j ≡ c
  pub ended : length elem < dirsiz → name' (length elem) ≡ 0
  pub beyond : (j : ℕ) → dirsiz ≤ j → name' j ≡ name j

copied_in : (l : List ℕ) (name : Bytes) (j c : ℕ) → get_elem? l j ≡ some c → copied l name j ≡ c
copied_in [] name j c h = absurd (none-ne-some _ h)
copied_in (d ∷ l) name zero c h = some-injective _ _ h
copied_in (d ∷ l) name (suc j) c h = copied_in l (λ k. name (suc k)) j c h

copied_beyond : (l : List ℕ) (name : Bytes) (j : ℕ) → length l ≤ j → copied l name j ≡ name j
copied_beyond [] name j h = refl
copied_beyond (d ∷ l) name zero h = absurd (omega arith)
copied_beyond (d ∷ l) name (suc j) h = copied_beyond l (λ k. name (suc k)) j (omega arith)

get_elem?-take :
    (n : ℕ) (l : List ℕ) (j c : ℕ)
    → j < n
    → get_elem? l j ≡ some c
    → get_elem? (take n l) j ≡ some c
get_elem?-take zero l j c u h = absurd (omega arith)
get_elem?-take (suc n) [] j c u h = h
get_elem?-take (suc n) (d ∷ l) zero c u h = h
get_elem?-take (suc n) (d ∷ l) (suc j) c u h = get_elem?-take n l j c (omega arith) h

-- How `skipelem` ends.
pub data Skips (path : List ℕ) (name : Bytes) : Option (List ℕ × Bytes) → Type 0 where
  no_element : ((i c : ℕ) → get_elem? path i ≡ some c → c ≡ slash) → Skips path name none
  element :
      {rest : List ℕ} {name' : Bytes} (lead trail : ℕ) (elem : List ℕ)
      → path ≡ replicate lead slash ++ (elem ++ (replicate trail slash ++ rest))
      → 0 < length elem
      → HasNoSlash elem
      → is_absolute rest ≡ false
      → (trail ≡ 0 → rest ≡ [])
      → IsName elem name name'
      → Skips path name (some (rest, name'))

-- `name` after `memmove` and the 0 behind it.
abbrev named : List ℕ → Bytes → Bytes
named elem name =
    if leb dirsiz (length elem)
    then copied (take dirsiz elem) name
    else update (copied elem name) (length elem) 0

length-take_long : (n : ℕ) (l : List ℕ) → n ≤ length l → length (take n l) ≡ n
length-take_long zero l h = refl
length-take_long (suc n) [] h = absurd (omega arith)
length-take_long (suc n) (c ∷ l) h = ap suc (length-take_long n l (omega arith))

elem_bound : (l : List ℕ) (j c : ℕ) → get_elem? l j ≡ some c → j < length l
elem_bound l j c h = get_elem?-bound l j h

named-IsName : (elem : List ℕ) (name : Bytes) → IsName elem name (named elem name)
named-IsName elem name = elim (dec_lt (length elem) dirsiz) [
  | yes short ↦
      let t = lt→leb-false dirsiz (length elem) short in
      rw t (record {
        text = λ j c u h.
            let ne : length elem ≢ j = λ e. absurd (short_ne j c h e) in
            rw (==_ne (length elem) j ne) (copied_in elem name j c h);
        ended = λ u. rw (==_refl (length elem)) refl;
        beyond = λ j u.
            let ne : length elem ≢ j = λ e. absurd (too_short short u e) in
            rw (==_ne (length elem) j ne) (copied_beyond elem name j (omega arith));
      })
  | no long ↦
      let t : leb dirsiz (length elem) ≡ true = ground arith in
      rw t (record {
        text =
            λ j c u h. copied_in (take dirsiz elem) name j c (get_elem?-take dirsiz elem j c u h);
        ended = λ u. absurd (long u);
        beyond = λ j u.
            copied_beyond (take dirsiz elem) name j
              (subst (λ k. k ≤ j) (sym (length-take_long dirsiz elem (omega arith))) u);
      })
]
  where
    short_ne : (j c : ℕ) → get_elem? elem j ≡ some c → length elem ≡ j → ⊥
    short_ne j c h e = let b = elem_bound elem j c h in omega arith

    too_short : {j : ℕ} → length elem < dirsiz → dirsiz ≤ j → length elem ≡ j → ⊥
    too_short s u e = omega arith

-- A path of slashes only.
only_slashes : (n i c : ℕ) → get_elem? (replicate n slash ++ []) i ≡ some c → c ≡ slash
only_slashes zero i c h = absurd (none-ne-some _ h)
only_slashes (suc n) zero c h = sym (some-injective _ _ h)
only_slashes (suc n) (suc i) c h = only_slashes n i c h

-- A text whose rest starts with a slash or is empty, and that does not start with one itself, is not
-- empty.
begun :
    (c : ℕ) (l elem bs : List ℕ)
    → (c == slash) ≡ false
    → c ∷ l ≡ elem ++ bs
    → (is_empty bs || is_absolute bs) ≡ true
    → 0 < length elem
begun c l [] bs ne e ends =
    let t : (is_empty (c ∷ l) || is_absolute (c ∷ l)) ≡ true =
      subst (λ m. (is_empty m || is_absolute m) ≡ true) (sym e) ends in
    ground arith
begun c l (a ∷ elem) bs ne e ends = omega arith

-- A rest that no slash precedes is empty.
ended :
    (bs rest : List ℕ) (count : ℕ)
    → bs ≡ replicate count slash ++ rest
    → is_absolute rest ≡ false
    → (is_empty bs || is_absolute bs) ≡ true
    → count ≡ 0
    → rest ≡ []
ended bs [] count e plain ends z = refl
ended bs (d ∷ rest) count e plain ends z =
    let f : bs ≡ d ∷ rest = e ∙ ap (λ k. replicate k slash ++ (d ∷ rest)) z in
    let t : (d == slash) ≡ true = subst (λ m. (is_empty m || is_absolute m) ≡ true) f ends in
    ground arith

-- `skipelem` splits a path: after slashes there is an element without slashes, more slashes, and what
-- it returns, which does not start with a slash; the name gets the element, cut at 14 bytes. It returns
-- 0 only if the path has nothing but slashes.
pub skipelem-Skips : (path : List ℕ) (name : Bytes) → Skips path name (skipelem path name)
unfolding skipelem
skipelem-Skips path name = go (skip_slashes path) (skip_slashes-Stripped path)
  where
    first :
        (c : ℕ) (l : List ℕ) (s : List ℕ × List ℕ)
        → (c == slash) ≡ false
        → Split (c ∷ l) s
        → Stripped (s.1) (skip_slashes (s.1))
        → (lead : ℕ) → path ≡ replicate lead slash ++ (c ∷ l)
        → Skips path name (some (skip_slashes (s.1), named (s.0) name))
    first c l s ne split rest lead e =
        element lead rest.count (s.0)
          (e ∙ ap (λ m. replicate lead slash ++ m) (split.same ∙ ap (λ m. s.0 ++ m) rest.same))
          (begun c l (s.0) (s.1) ne split.same split.ends) split.plain rest.no_slash
          (λ z. ended (s.1) (skip_slashes (s.1)) rest.count rest.same rest.no_slash split.ends z)
          (named-IsName (s.0) name)

    go :
        (stripped : List ℕ)
        → Stripped path stripped
        → Skips path name (elim stripped as (λ _. Option (List ℕ × Bytes)) [
          | [] ↦ none
          | c ∷ l ↦
              let s = skip_name (c ∷ l) in
              let len = length (s.0) in
              let name' =
                if leb dirsiz len
                then copied (take dirsiz (s.0)) name
                else update (copied (s.0) name) len 0 in
              some (skip_slashes (s.1), name')
        ])
    go [] h =
        no_element
          (λ i c at. only_slashes h.count i c (subst (λ m. get_elem? m i ≡ some c) h.same at))
    go (c ∷ l) h =
        first c l (skip_name (c ∷ l)) h.no_slash (skip_name-Split (c ∷ l))
          (skip_slashes-Stripped ((skip_name (c ∷ l)).1)) h.count h.same
