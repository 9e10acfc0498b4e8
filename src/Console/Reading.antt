-- ===== src/Console/Reading.antt =====
-- `consoleread` of kernel/console.c takes lines.
use os_project_cs.Prelude.{
  ℕ, zero, suc, ◌+◌, ◌-◌, ◌%◌, ◌^◌, ◌<◌, ◌≤◌, ◌≡◌, refl, ◌∙◌, ap, subst, Bool, false, List, [], ◌∷◌,
  ◌==◌, ltb, if◌then◌else◌, arith, Bool-cases, inl, inr,
}
use os_project_cs.Outcome.{ok}
use os_project_cs.Spinlock.Section.{
  IsFree, unlocked, after, after-IsFree, acquire_free, release_held,
}
use os_project_cs.Console.{Console, newline, control_d, ReadEnd, returned, read_rounds, consoleread}
use os_project_cs.Console.Lines.{Lines, Input}
use os_project_cs.Console.Typing.{Input-unlocked}
use os_project_cs.Console.Taken.{
  is_ready, first_byte, taken-Input, Took, earlier, IsOneLine-cons, one_byte, no_bytes, full, line,
  end_kept, end_taken, fault, dead, waits,
}

read_rounds-Took :
    (copyout : ℕ → Bool) (killed : Bool) (target n : ℕ) (s : Console) (l : Lines)
    → n ≤ target
    → Input s l
    → let o = read_rounds copyout killed target n s in
      Took copyout killed target n l (o.0) (o.1) (o.2)
unfolding read_rounds
read_rounds-Took copyout killed target zero s l le h = record {
  gone = [];
  rest = l.ready;
  order = refl;
  input = h;
  one_line = no_bytes;
  why = full refl (omega arith);
}
read_rounds-Took copyout killed target (suc n) s l le h = go l.ready h (λ q i.
    read_rounds-Took copyout killed target n (record s { r = (s.r + 1) % 2 ^ 32 })
      (record { ready = q; edit = l.edit }) (omega arith) i)
  where
    -- The end at a Control-D, which only a call without bytes takes.
    at_end :
        (q : List ℕ)
        → Input s (record { ready = control_d ∷ q; edit = l.edit })
        → Took copyout killed target
            (suc n)
            (record { ready = control_d ∷ q; edit = l.edit })
            (returned (target - suc n))
            []
            (if ltb (suc n) target
              then record s { r = ((s.r + 1) % 2 ^ 32 + (2 ^ 32 - 1)) % 2 ^ 32 }
              else record s { r = (s.r + 1) % 2 ^ 32 })
    at_end q h = elim (Bool-cases (ltb (suc n) target)) [
      | inl t ↦
          let some_left : suc n < target = ground arith in
          let r = h.small in
          let same : ((s.r + 1) % 2 ^ 32 + (2 ^ 32 - 1)) % 2 ^ 32 ≡ s.r = omega arith in
          rw (t, same)
            (record {
              gone = [];
              rest = control_d ∷ q;
              order = refl;
              input = h;
              one_line = no_bytes;
              why = end_kept (omega arith) (omega arith);
            })
      | inr f ↦
          let none_left : target ≡ suc n = ground arith in
          let zero_count : target - suc n ≡ 0 = omega arith in
          rw (f, zero_count)
            (record {
              gone = control_d ∷ [];
              rest = q;
              order = refl;
              input = taken-Input s control_d q l.edit h;
              one_line = no_bytes;
              why = end_taken (omega arith);
            })
    ]

    go :
        (ready : List ℕ)
        → Input s (record { ready = ready; edit = l.edit })
        → ((q : List ℕ)
            → Input (record s { r = (s.r + 1) % 2 ^ 32 }) (record { ready = q; edit = l.edit })
            → let o = read_rounds copyout killed target n (record s { r = (s.r + 1) % 2 ^ 32 }) in
              Took copyout killed target n (record { ready = q; edit = l.edit }) (o.0) (o.1) (o.2))
        → let o = read_rounds copyout killed target (suc n) s in
          Took copyout killed target
            (suc n)
            (record { ready = ready; edit = l.edit })
            (o.0)
            (o.1)
            (o.2)
    go [] h ih =
        let t = is_ready s (record { ready = []; edit = l.edit }) h in
        elim (Bool-cases killed) [
          | inl k ↦
              rw (t, k)
                (record {
                  gone = [];
                  rest = [];
                  order = refl;
                  input = h;
                  one_line = no_bytes;
                  why = dead refl;
                })
          | inr k ↦
              rw (t, k)
                (record {
                  gone = [];
                  rest = [];
                  order = refl;
                  input = h;
                  one_line = no_bytes;
                  why = waits refl (omega arith);
                })
        ]
    go (x ∷ q) h ih =
        let t : (s.r == s.w) ≡ false =
          is_ready s (record { ready = x ∷ q; edit = l.edit }) h ∙ ground arith in
        let b = first_byte s x q l.edit h in
        let i = taken-Input s x q l.edit h in
        elim (Bool-cases (x == control_d)) [
          | inl d ↦
              let e : x ≡ control_d = ground arith in
              rw (t, b, d, e)
                (at_end q (subst (λ y. Input s (record { ready = y ∷ q; edit = l.edit })) e h))
          | inr nd ↦ elim (Bool-cases (copyout (suc n))) [
            | inr f ↦
                rw (t, b, nd, f)
                  (record {
                    gone = x ∷ [];
                    rest = q;
                    order = refl;
                    input = i;
                    one_line = no_bytes;
                    why = fault x (suc n) f (omega arith) (omega arith);
                  })
            | inl c ↦ elim (Bool-cases (x == newline)) [
              | inl m ↦
                  let e : x ≡ newline = ground arith in
                  rw (t, b, nd, c, m)
                    (record {
                      gone = [];
                      rest = q;
                      order = refl;
                      input = i;
                      one_line = one_byte x (λ f. ground arith);
                      why = line [] (ap (λ y. y ∷ []) e) (omega arith);
                    })
              | inr nm ↦
                  let r = ih q i in
                  rw (t, b, nd, c, nm)
                    (record {
                      gone = r.gone;
                      rest = r.rest;
                      order = ap (λ m. x ∷ m) r.order;
                      input = r.input;
                      one_line =
                          IsOneLine-cons x _ (λ f. ground arith) (λ f. ground arith) r.one_line;
                      why = earlier copyout killed target n x _ r.gone r.rest _ r.why;
                    })
            ]
          ]
        ]

pub record Read (copyout : ℕ → Bool) (killed : Bool) (target n : ℕ) (s : Console) (l : Lines)
    : Type 0 where
  pub how : ReadEnd
  pub out : List ℕ
  pub last : Console
  pub runs : consoleread copyout killed target n s ≡ ok (how, out, last)
  pub took : Took copyout killed target n l how out last
  pub free : IsFree last.cpu last.lock

-- `consoleread` copies out bytes from the front of what is ready, in order, and never from the line
-- that is edited: at most one line, and no Control-D. It returns when it has its bytes or a line, at a
-- Control-D, which stays for the next call unless this one read nothing, or at a byte that cannot be
-- stored, which is lost; it returns -1 or sleeps only when nothing is ready. The count it returns is
-- the number of bytes copied out since it began.
pub consoleread-Read :
    (copyout : ℕ → Bool) (killed : Bool) (target n : ℕ) (s : Console) (l : Lines)
    → n ≤ target
    → IsFree s.cpu s.lock
    → Input s l
    → Read copyout killed target n s l
unfolding consoleread
consoleread-Read copyout killed target n s l le free h =
    let t = read_rounds-Took copyout killed target n s l le h in
    let o = read_rounds copyout killed target n s in
    record {
      how = o.0;
      out = o.1;
      last = record (o.2) { cpu = after s.cpu; lock = unlocked };
      runs = rw (acquire_free s.cpu s.lock free.unlocked, release_held s.cpu free.settled) refl;
      took = record {
        gone = t.gone;
        rest = t.rest;
        order = t.order;
        input =
            Input-unlocked (o.2) (record (o.2) { cpu = after s.cpu; lock = unlocked })
              (record { ready = t.rest; edit = l.edit }) refl refl refl refl t.input;
        one_line = t.one_line;
        why = t.why;
      };
      free = after-IsFree s.cpu free.settled;
    }
