-- ===== src/Console/Taken.antt =====
-- What `consoleread` of kernel/console.c takes, and why it ends.
use os_project_cs.Prelude.{
  ℕ, zero, suc, ◌+◌, ◌%◌, ◌^◌, ◌<◌, ◌≡◌, ◌≢◌, refl, ◌∙◌, ap, subst, Bool, true, false, List, [],
  ◌∷◌, ◌++◌, some, ◌==◌, get_elem?, length, arith,
}
use mathlib.Core.Option.{some-injective, none-ne-some}
use os_project_cs.Console.{
  Console, input_buf_size, newline, control_d, ReadEnd, returned, interrupted, asleep,
}
use os_project_cs.Console.Lines.{Lines, Input}

pub is_ready : (s : Console) (l : Lines) → Input s l → (s.r == s.w) ≡ (length l.ready == 0)
is_ready s l h = let r = h.small in let w = h.written in let b = h.bounded in ground arith

pub first_byte :
    (s : Console) (x : ℕ) (q edit : List ℕ)
    → Input s (record { ready = x ∷ q; edit = edit })
    → s.buf (s.r % input_buf_size) ≡ x
first_byte s x q edit h =
    let e : s.r + 0 ≡ s.r = omega arith in
    subst (λ p. s.buf (p % input_buf_size) ≡ x) e (h.holds 0 x refl)

-- A byte taken.
pub taken-Input :
    (s : Console) (x : ℕ) (q edit : List ℕ)
    → Input s (record { ready = x ∷ q; edit = edit })
    → Input (record s { r = (s.r + 1) % 2 ^ 32 }) (record { ready = q; edit = edit })
taken-Input s x q edit h =
    let r = h.small in
    let w = h.written in
    let e = h.edited in
    let b = h.bounded in
    record {
      small = omega arith;
      bounded = omega arith;
      written = omega arith;
      edited = omega arith;
      holds = λ j y at.
          let place : ((s.r + 1) % 2 ^ 32 + j) % input_buf_size ≡ (s.r + suc j) % input_buf_size =
            omega arith in
          rw place (h.holds (suc j) y at);
      one_line = h.one_line;
    }

-- Why a call ends that had `n` of `target` bytes left, copied `out` out, and left `rest`; `gone` was
-- taken and not copied.
pub data Why (copyout : ℕ → Bool) (killed : Bool) (target n : ℕ)
    : List ℕ → List ℕ → List ℕ → ReadEnd → Type 0 where
  full :
      {out rest : List ℕ} {count : ℕ}
      → length out ≡ n
      → count + n ≡ target + length out
      → Why copyout killed target n out [] rest (returned count)
  line :
      {out rest : List ℕ} {count : ℕ} (text : List ℕ)
      → out ≡ text ++ (newline ∷ [])
      → count + n ≡ target + length out
      → Why copyout killed target n out [] rest (returned count)
  end_kept :
      {out rest : List ℕ} {count : ℕ}
      → 0 < count
      → count + n ≡ target + length out
      → Why copyout killed target n out [] (control_d ∷ rest) (returned count)
  end_taken :
      {out rest : List ℕ}
      → n ≡ target + length out
      → Why copyout killed target n out (control_d ∷ []) rest (returned 0)
  fault :
      {out rest : List ℕ} {count : ℕ} (x left : ℕ)
      → copyout left ≡ false
      → left + length out ≡ n
      → count + n ≡ target + length out
      → Why copyout killed target n out (x ∷ []) rest (returned count)
  dead : {out : List ℕ} → killed ≡ true → Why copyout killed target n out [] [] interrupted
  waits :
      {out : List ℕ} {left : ℕ}
      → killed ≡ false
      → left + length out ≡ n
      → Why copyout killed target n out [] [] (asleep left)

-- Only the last byte can be a newline, and none is a Control-D.
abbrev pub IsOneLine : List ℕ → Type 0
IsOneLine out =
    (j x : ℕ) → get_elem? out j ≡ some x → (x ≢ control_d) × (suc j < length out → x ≢ newline)

pub record Took (copyout : ℕ → Bool) (killed : Bool) (target n : ℕ) (l : Lines) (how : ReadEnd)
    (out : List ℕ) (last : Console) : Type 0 where
  pub gone : List ℕ
  pub rest : List ℕ
  pub order : l.ready ≡ out ++ (gone ++ rest)
  pub input : Input last (record { ready = rest; edit = l.edit })
  pub one_line : IsOneLine out
  pub why : Why copyout killed target n out gone rest how

-- One byte more before the others.
pub earlier :
    (copyout : ℕ → Bool) (killed : Bool) (target n x : ℕ) (out gone rest : List ℕ) (how : ReadEnd)
    → Why copyout killed target n out gone rest how
    → Why copyout killed target (suc n) (x ∷ out) gone rest how
earlier copyout killed target n x out _ rest _ (full e c) = full (ap suc e) (omega arith)
earlier copyout killed target n x out _ rest _ (line text e c) =
    line (x ∷ text) (ap (λ l. x ∷ l) e) (omega arith)
earlier copyout killed target n x out _ _ _ (end_kept p c) = end_kept p (omega arith)
earlier copyout killed target n x out _ rest _ (end_taken e) = end_taken (omega arith)
earlier copyout killed target n x out _ rest _ (fault y left f e c) =
    fault y left f (omega arith) (omega arith)
earlier copyout killed target n x out _ _ _ (dead k) = dead k
earlier copyout killed target n x out _ _ _ (waits k e) = waits k (omega arith)

pub IsOneLine-cons :
    (x : ℕ) (out : List ℕ) → x ≢ control_d → x ≢ newline → IsOneLine out → IsOneLine (x ∷ out)
IsOneLine-cons x out ne ne' h zero y at =
    let e : x ≡ y = some-injective _ _ at in ((λ f. ne (e ∙ f)), λ u f. ne' (e ∙ f))
IsOneLine-cons x out ne ne' h (suc j) y at = let i = h j y at in (i.0, λ u. i.1 (omega arith))

pub one_byte : (x : ℕ) → x ≢ control_d → IsOneLine (x ∷ [])
one_byte x ne zero y at =
    let e : x ≡ y = some-injective _ _ at in ((λ f. ne (e ∙ f)), λ u. absurd (omega arith))
one_byte x ne (suc j) y at = absurd (none-ne-some _ at)

pub no_bytes : IsOneLine []
no_bytes j x at = absurd (none-ne-some _ at)
