-- ===== src/Printf/Digits.antt =====
-- How many digits `printint` of kernel/printf.c stores in its buffer of 16 bytes.
use os_project_cs.Prelude.{
  ℕ, zero, suc, ◌-◌, ◌/◌, ◌^◌, ◌<◌, ◌≤◌, ◌≡◌, ◌↔◌, refl, sym, Bool, false, ◌&&◌, List, [], ◌∷◌,
  ◌++◌, none, ◌==◌, leb, if◌then◌else◌, length, length-append, arith, inl, inr, Bool-cases, dec_lt,
}
use mathlib.Core.Option.{none-ne-some}
use os_project_cs.Printf.{digit_rounds, lower, buf_size, print_buf, printint}

-- At most `n` digits below 10 ^ n.
pub digits_few : (k n letter x : ℕ) → x < 10 ^ n → 0 < n → length (digit_rounds k letter 10 x) ≤ n
unfolding digit_rounds
digits_few zero n letter x l p = omega arith
digits_few (suc k) zero letter x l p = absurd (omega arith)
digits_few (suc k) (suc n) letter x l p = elim (Bool-cases (x / 10 == 0)) [
  | inl done ↦ rw done (omega arith)
  | inr more ↦
      let big : 1 ≤ x / 10 = ground arith in
      let small : x / 10 < 10 ^ n = below l in
      let n_pos : 0 < n = positive n small big in
      let ih = digits_few k n letter (x / 10) small n_pos in rw more (omega arith)
]
  where
    below : x < 10 ^ suc n → x / 10 < 10 ^ n
    below l = omega arith

    positive : (n : ℕ) → x / 10 < 10 ^ n → 1 ≤ x / 10 → 0 < n
    positive zero s b = absurd (omega arith)
    positive (suc n) s b = omega arith

-- More than `n` digits from 10 ^ n on.
pub digits_many : (k n letter x : ℕ) → 10 ^ n ≤ x → n < k → n < length (digit_rounds k letter 10 x)
unfolding digit_rounds
digits_many zero n letter x l p = absurd (omega arith)
digits_many (suc k) zero letter x l p = omega arith
digits_many (suc k) (suc n) letter x l p =
    let one : 1 ≤ 10 ^ n = at_least n in
    let big : 10 ^ n ≤ x / 10 = omega arith in
    let more : (x / 10 == 0) ≡ false = ground arith in
    let ih = digits_many k n letter (x / 10) big (omega arith) in rw more (omega arith)
  where
    at_least : (n : ℕ) → 1 ≤ 10 ^ n
    at_least zero = omega arith
    at_least (suc n) = let ih = at_least n in omega arith

-- Whether the number is printed with a sign, and without it.
abbrev pub is_negative : ℕ → Bool → Bool
is_negative xx sign = sign && leb (2 ^ 63) xx

abbrev pub magnitude : ℕ → Bool → ℕ
magnitude xx sign = if is_negative xx sign then 2 ^ 64 - xx else xx

-- The least magnitude that does not fit.
abbrev pub limit : ℕ → Bool → ℕ
limit xx sign = if is_negative xx sign then 10 ^ 15 else 10 ^ 16

-- `print_buf` prints what fits.
print_buf_lem : (buf : List ℕ) → (print_buf buf ≡ none) ↔ (buf_size < length buf)
print_buf_lem buf = elim (Bool-cases (leb (length buf) buf_size)) [
  | inl t ↦
      let fits : length buf ≤ buf_size = ground arith in
      rw t ((λ e. absurd (none-ne-some _ (sym e))), λ l. absurd (omega arith))
  | inr f ↦ let big : buf_size < length buf = ground arith in rw f ((λ e. big), λ l. refl)
]

more_digits : (n x : ℕ) → 0 < n → n < 64 → (n < length (digit_rounds 64 lower 10 x)) ↔ (10 ^ n ≤ x)
more_digits n x p l = (
  (λ many. elim (dec_lt x (10 ^ n)) [
    | yes few ↦ let u = digits_few 64 n lower x few p in absurd (omega arith)
    | no big ↦ omega arith
  ]),
  λ big. digits_many 64 n lower x big l,
)

-- In base 10, `printint` writes past its buffer of 16 bytes exactly for the numbers of 17 digits and
-- more, and for the negative ones of 16 digits and more; it prints every other number.
pub printint-overflow :
    (xx : ℕ) (sign : Bool)
    → xx < 2 ^ 64
    → (printint xx 10 sign ≡ none) ↔ (limit xx sign ≤ magnitude xx sign)
unfolding printint
printint-overflow xx sign small = elim (Bool-cases (is_negative xx sign)) [
  | inl neg ↦ rw neg (minus (2 ^ 64 - xx))
  | inr plus ↦ rw plus (plain xx)
]
  where
    plain : (x : ℕ) → (print_buf (digit_rounds 64 lower 10 x) ≡ none) ↔ (10 ^ 16 ≤ x)
    plain x =
        let b = print_buf_lem (digit_rounds 64 lower 10 x) in
        let d = more_digits 16 x (omega arith) (omega arith) in
        ((λ e. d.0 (b.0 e)), λ l. b.1 (d.1 l))

    minus : (x : ℕ) → (print_buf (digit_rounds 64 lower 10 x ++ (45 ∷ [])) ≡ none) ↔ (10 ^ 15 ≤ x)
    minus x =
        let buf = digit_rounds 64 lower 10 x in
        let b = print_buf_lem (buf ++ (45 ∷ [])) in
        let d = more_digits 15 x (omega arith) (omega arith) in
        let n = length-append buf (45 ∷ []) in
        ((λ e. let m = b.0 e in d.0 (omega arith)), λ l. let m = d.1 l in b.1 (omega arith))
