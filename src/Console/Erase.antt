-- ===== src/Console/Erase.antt =====
-- The erasing of `consoleintr` of kernel/console.c.
use os_project_cs.Prelude.{
  ℕ, zero, suc, ◌+◌, ◌-◌, ◌%◌, ◌^◌, ◌≤◌, ◌≡◌, ◌∙◌, subst, false, not, ◌&&◌, List, [], ◌∷◌, ◌++◌,
  some, ◌==◌, if◌then◌else◌, get_elem?, length, arith, length-append, ==_ne, inl, inr, Bool-cases,
  get_elem?-append_left, get_elem?-append_last, Ends, empty, last, ends,
}
use mathlib.Core.List.{append_assoc}
use os_project_cs.Console.{
  Console, input_buf_size, newline, backspace, consputc, erase, erase_rounds, used,
}
use os_project_cs.Console.Lines.{Lines, all, Input}

-- The state after a byte is sent has the same input.
pub consputc-Input : (c : ℕ) (s : Console) (l : Lines) → Input s l → Input (consputc c s) l
unfolding consputc
consputc-Input c s l h = elim (Bool-cases (c == backspace)) [
  | inl t ↦ rw t (record {
    small = h.small;
    bounded = h.bounded;
    written = h.written;
    edited = h.edited;
    holds = h.holds;
    one_line = h.one_line;
  })
  | inr f ↦ rw f (record {
    small = h.small;
    bounded = h.bounded;
    written = h.written;
    edited = h.edited;
    holds = h.holds;
    one_line = h.one_line;
  })
]

-- The tests of the source, on counters that wrap.
pub is_edited : (s : Console) (l : Lines) → Input s l → (s.e == s.w) ≡ (length l.edit == 0)
is_edited s l h = let w = h.written in let e = h.edited in let b = h.bounded in ground arith

pub used_lem : (s : Console) (l : Lines) → Input s l → used s ≡ length (all l)
used_lem s l h =
    let r = h.small in
    let e = h.edited in let b = h.bounded in let n = length-append l.ready l.edit in omega arith

-- One byte of the line erased.
pub erase-Input :
    (s : Console) (ready edit : List ℕ) (x : ℕ)
    → Input s (record { ready = ready; edit = edit ++ (x ∷ []) })
    → Input (erase s) (record { ready = ready; edit = edit })
unfolding erase
erase-Input s ready edit x h =
    let r = h.small in
    let e = h.edited in
    let b = h.bounded in
    let n = length-append edit (x ∷ []) in
    consputc-Input backspace (record s { e = (s.e + (2 ^ 32 - 1)) % 2 ^ 32 })
      (record { ready = ready; edit = edit })
      (record {
        small = r;
        bounded = omega arith;
        written = h.written;
        edited = omega arith;
        holds = λ j y at. h.holds j y (
            subst (λ q. get_elem? q j ≡ some y) (append_assoc ready edit (x ∷ []))
              (get_elem?-append_left (ready ++ edit) (x ∷ []) j y at));
        one_line = λ j y at. h.one_line j y (get_elem?-append_left edit (x ∷ []) j y at);
      })

-- The last byte of the line is where `erase` looks.
last_byte :
    (s : Console) (ready edit : List ℕ) (x : ℕ)
    → Input s (record { ready = ready; edit = edit ++ (x ∷ []) })
    → s.buf ((s.e + (2 ^ 32 - 1)) % 2 ^ 32 % input_buf_size) ≡ x
last_byte s ready edit x h =
    let r = h.small in
    let e = h.edited in
    let b = h.bounded in
    let n = length-append edit (x ∷ []) in
    let m = length-append ready edit in
    let place : (s.e + (2 ^ 32 - 1)) % 2 ^ 32 % input_buf_size
        ≡ (s.r + length (ready ++ edit)) % input_buf_size =
      omega arith in
    rw place (
      h.holds (length (ready ++ edit)) x (
        subst (λ q. get_elem? q (length (ready ++ edit)) ≡ some x)
          (append_assoc ready edit (x ∷ [])) (get_elem?-append_last (ready ++ edit) x)))

-- Control-U erases the line.
pub erase_rounds-Input :
    (k : ℕ) (s : Console) (ready edit : List ℕ)
    → length edit ≤ k
    → Input s (record { ready = ready; edit = edit })
    → Input (erase_rounds k s) (record { ready = ready; edit = [] })
unfolding erase_rounds
erase_rounds-Input zero s ready edit le h = go edit (ends edit) le h
  where
    go :
        (edit : List ℕ)
        → Ends edit
        → length edit ≤ 0
        → Input s (record { ready = ready; edit = edit })
        → Input s (record { ready = ready; edit = [] })
    go _ empty le h = h
    go _ (last xs x) le h = let n = length-append xs (x ∷ []) in absurd (omega arith)
erase_rounds-Input (suc k) s ready edit le h =
    go edit (ends edit) le h (λ xs le h. erase_rounds-Input k (erase s) ready xs le h)
  where
    go :
        (edit : List ℕ)
        → Ends edit
        → length edit ≤ suc k
        → Input s (record { ready = ready; edit = edit })
        → ((xs : List ℕ)
            → length xs ≤ k
            → Input (erase s) (record { ready = ready; edit = xs })
            → Input (erase_rounds k (erase s)) (record { ready = ready; edit = [] }))
        → Input
            (if not (s.e == s.w)
                && not (s.buf ((s.e + (2 ^ 32 - 1)) % 2 ^ 32 % input_buf_size) == newline)
              then erase_rounds k (erase s)
              else s)
            (record { ready = ready; edit = [] })
    go _ empty le h ih = let t = is_edited s (record { ready = ready; edit = [] }) h in rw t h
    go _ (last xs x) le h ih =
        let n = length-append xs (x ∷ []) in
        let t : (s.e == s.w) ≡ false =
          is_edited s (record { ready = ready; edit = xs ++ (x ∷ []) }) h ∙ ground arith in
        let ne = h.one_line (length xs) x (get_elem?-append_last xs x) in
        let u : (s.buf ((s.e + (2 ^ 32 - 1)) % 2 ^ 32 % input_buf_size) == newline) ≡ false =
          rw (last_byte s ready xs x h) (==_ne x newline ne) in
        rw (t, u) (ih xs (omega arith) (erase-Input s ready xs x h))
