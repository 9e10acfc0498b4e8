-- ===== src/Printf/Back.antt =====
-- `atoi` of user/ulib.c reads what `printint` of user/printf.c prints.
use os_project_cs.Prelude.{
  ℕ, zero, suc, ◌+◌, ◌-◌, ◌*◌, ◌/◌, ◌%◌, ◌^◌, ◌<◌, ◌≡◌, refl, ◌∙◌, ap, Bool, true, false, ◌&&◌,
  List, [], ◌∷◌, ◌++◌, some, ◌==◌, leb, length, arith, inl, inr, Bool-cases, le→leb, lt→leb-false,
}
use os_project_cs.Printf.{
  digit, digit_rounds, upper, buf_size, backwards, user_printint, atoi_from, atoi,
}
use os_project_cs.Printf.Digits.{digits_few}

abbrev is_digit : ℕ → Bool
is_digit c = leb 48 c && leb c 57

abbrev all_digits : List ℕ → Bool
all_digits [] = true
all_digits (c ∷ s) = is_digit c && all_digits s

all_digits-append :
    (s : List ℕ) (c : ℕ)
    → all_digits s ≡ true
    → is_digit c ≡ true
    → all_digits (s ++ (c ∷ [])) ≡ true
all_digits-append [] c h d = rw d refl
all_digits-append (x ∷ s) c h d =
    let first : is_digit x ≡ true = ground arith in
    let others : all_digits s ≡ true = ground arith in
    rw (first, all_digits-append s c others d) refl

atoi-append :
    (n : ℕ) (s : List ℕ) (c : ℕ)
    → all_digits s ≡ true
    → is_digit c ≡ true
    → atoi_from n (s ++ (c ∷ [])) ≡ atoi_from n s * 10 + c - 48
unfolding atoi_from
atoi-append n [] c h d = rw d refl
atoi-append n (x ∷ s) c h d =
    let first : is_digit x ≡ true = ground arith in
    let others : all_digits s ≡ true = ground arith in
    rw (first, atoi-append (n * 10 + x - 48) s c others d) refl

-- A digit below ten.
digit_lem : (x : ℕ) → digit upper (x % 10) ≡ 48 + x % 10
digit_lem x = ground arith

is_digit_lem : (x : ℕ) → is_digit (48 + x % 10) ≡ true
is_digit_lem x = ground arith

-- The digits of a number: all are digits, and read back they are the number.
record ReadsBack (text : List ℕ) (x : ℕ) : Type 0 where
  plain : all_digits text ≡ true
  value : atoi text ≡ x

one-ReadsBack : (x : ℕ) → x / 10 ≡ 0 → ReadsBack ((48 + x % 10) ∷ []) x
unfolding atoi atoi_from
one-ReadsBack x z = record {
  plain = rw (is_digit_lem x) refl;
  value = rw (is_digit_lem x) (omega arith);
}

append-ReadsBack :
    (text : List ℕ) (x : ℕ) → ReadsBack text (x / 10) → ReadsBack (text ++ ((48 + x % 10) ∷ [])) x
unfolding atoi
append-ReadsBack text x h = record {
  plain = all_digits-append text (48 + x % 10) h.plain (is_digit_lem x);
  value =
      let v = h.value in
      atoi-append 0 text (48 + x % 10) h.plain (is_digit_lem x)
      ∙ ap (λ n. n * 10 + (48 + x % 10) - 48) v
      ∙ omega arith;
}

digits-ReadsBack :
    (k x : ℕ) → x < 2 ^ suc k → ReadsBack (backwards (digit_rounds (suc k) upper 10 x)) x
unfolding digit_rounds backwards
digits-ReadsBack zero x l =
    let done : (x / 10 == 0) ≡ true = ground arith in
    rw (done, digit_lem x) (one-ReadsBack x (omega arith))
digits-ReadsBack (suc k) x l = elim (Bool-cases (x / 10 == 0)) [
  | inl done ↦ rw (done, digit_lem x) (one-ReadsBack x (ground arith))
  | inr more ↦
      let half : x / 10 < 2 ^ suc k = omega arith in
      rw (more, digit_lem x) (append-ReadsBack _ x (digits-ReadsBack k (x / 10) half))
]

-- A number from 0 up to the largest `int`, printed by a program in base 10 and read by `atoi`, is the
-- same number; the printing stays in its buffer.
pub atoi-user_printint :
    (n : ℕ) (sgn : Bool)
    → n < 2 ^ 31
    → (text : List ℕ) × (user_printint n 10 sgn ≡ some text) × (atoi text ≡ n)
unfolding user_printint
atoi-user_printint n sgn l =
    let buf = digit_rounds 32 upper 10 n in
    let plus : (sgn && leb (2 ^ 31) n) ≡ false = positive sgn in
    let few = digits_few 32 10 upper n (omega arith) (omega arith) in
    let fits : leb (length buf) buf_size ≡ true = le→leb (length buf) buf_size (omega arith) in
    let back = digits-ReadsBack 31 n (omega arith) in
    (backwards buf, rw (plus, fits) refl, back.value)
  where
    positive : (sgn : Bool) → (sgn && leb (2 ^ 31) n) ≡ false
    positive true = lt→leb-false (2 ^ 31) n l
    positive false = refl
