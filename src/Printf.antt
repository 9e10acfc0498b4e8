-- ===== src/Printf.antt =====
-- The numbers of kernel/printf.c and user/printf.c as text, and atoi of user/ulib.c. An integer is its
-- bit pattern; a text is the list of its bytes.
pub mod Digits
pub mod Back
mod Tests
use os_project_cs.Prelude.{
  ℕ, zero, suc, ◌+◌, ◌-◌, ◌*◌, ◌/◌, ◌%◌, ◌^◌, Bool, true, false, not, ◌&&◌, ◌||◌, List, [], ◌∷◌,
  ◌++◌, Option, none, some, ◌==◌, ltb, leb, if◌then◌else◌, length,
}

-- `digits`, with upper or lower case letters from ten on.
abbrev pub digit : ℕ → ℕ → ℕ
digit letter d = if ltb d 10 then 48 + d else letter + (d - 10)

abbrev pub lower : ℕ
lower = 97

abbrev pub upper : ℕ
upper = 65

-- The loop of `printint`: what it stores in `buf`, for a number of less than `k` bits.
unfoldable pub digit_rounds : ℕ → ℕ → ℕ → ℕ → List ℕ
digit_rounds zero letter base x = []
digit_rounds (suc k) letter base x =
    let rest = digit_rounds k letter base (x / base) in
    digit letter (x % base) ∷ (if x / base == 0 then [] else rest)

-- What is printed: `buf` from its end.
unfoldable pub backwards : List ℕ → List ℕ
backwards [] = []
backwards (c ∷ l) = backwards l ++ (c ∷ [])

-- `sizeof(buf)`.
abbrev pub buf_size : ℕ
buf_size = 16

-- `-` in `buf` after the digits.
abbrev pub signed : Bool → List ℕ → List ℕ
signed negative buf = if negative then buf ++ (45 ∷ []) else buf

-- `buf` printed, or nothing where the code has written past it.
abbrev pub print_buf : List ℕ → Option (List ℕ)
print_buf buf = if leb (length buf) buf_size then some (backwards buf) else none

-- `printint` of kernel/printf.c, on a `long long`.
unfoldable pub printint : ℕ → ℕ → Bool → Option (List ℕ)
unfolding digit_rounds backwards
printint xx base sign =
    let negative = sign && leb (2 ^ 63) xx in
    let x = if negative then 2 ^ 64 - xx else xx in
    print_buf (signed negative (digit_rounds 64 lower base x))

-- `printint` of user/printf.c, on an `int`.
unfoldable pub user_printint : ℕ → ℕ → Bool → Option (List ℕ)
unfolding digit_rounds backwards
user_printint xx base sgn =
    let negative = sgn && leb (2 ^ 31) xx in
    let x = if negative then 2 ^ 32 - xx else xx in
    print_buf (signed negative (digit_rounds 32 upper base x))

-- The loop of `printptr` with `k` digits left.
unfoldable pub pointer_rounds : ℕ → ℕ → List ℕ
pointer_rounds zero x = []
pointer_rounds (suc k) x = digit lower (x / 2 ^ 60) ∷ pointer_rounds k (x * 16 % 2 ^ 64)

unfoldable pub printptr : ℕ → List ℕ
unfolding pointer_rounds
printptr x = 48 ∷ 120 ∷ pointer_rounds 16 x

-- `atoi` from the value `n` on, for texts whose number an `int` can hold.
unfoldable pub atoi_from : ℕ → List ℕ → ℕ
atoi_from n [] = n
atoi_from n (c ∷ s) =
    let rest = atoi_from (n * 10 + c - 48) s in if leb 48 c && leb c 57 then rest else n

unfoldable pub atoi : List ℕ → ℕ
unfolding atoi_from
atoi s = atoi_from 0 s
