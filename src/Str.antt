-- ===== src/Str.antt =====
-- kernel/string.c, over memory byte by byte. A byte is a number, and a pointer an address.
pub mod Moves
pub mod Compare
pub mod Copy
mod Tests
use os_project_cs.Prelude.{
  ℕ, zero, suc, ◌+◌, ◌-◌, ◌%◌, ◌≡◌, Bool, true, false, not, ◌&&◌, Option, none, some, ltb, leb,
  ◌==◌, if◌then◌else◌, update, ℤ, pos, sub_ℕ,
}

abbrev pub Memory : Type 0
Memory = ℕ → ℕ

-- The loop of `memset` at place `i`, with `k` bytes left. The byte is the low byte of `c`.
unfoldable pub memset_rounds : ℕ → ℕ → ℕ → ℕ → Memory → Memory
memset_rounds zero dst i c m = m
memset_rounds (suc k) dst i c m = memset_rounds k dst (i + 1) c (update m (dst + i) (c % 256))

unfoldable pub memset : ℕ → ℕ → ℕ → Memory → Memory
unfolding memset_rounds
memset dst c n m = memset_rounds n dst 0 c m

unfoldable pub memcmp : ℕ → ℕ → ℕ → Memory → ℤ
memcmp s1 s2 zero m = pos 0
memcmp s1 s2 (suc n) m =
    let rest = memcmp (s1 + 1) (s2 + 1) n m in
    if not (m s1 == m s2) then sub_ℕ (m s1) (m s2) else rest

-- `while(n-- > 0) *d++ = *s++;`
unfoldable pub move_up : ℕ → ℕ → ℕ → Memory → Memory
move_up d s zero m = m
move_up d s (suc n) m = move_up (d + 1) (s + 1) n (update m d (m s))

-- `while(n-- > 0) *--d = *--s;`
unfoldable pub move_down : ℕ → ℕ → ℕ → Memory → Memory
move_down d s zero m = m
move_down d s (suc n) m = move_down (d - 1) (s - 1) n (update m (d - 1) (m (s - 1)))

unfoldable pub memmove : ℕ → ℕ → ℕ → Memory → Memory
unfolding move_up move_down
memmove dst src n m =
    if n == 0
    then m
    else if ltb src dst && ltb dst (src + n)
    then move_down (dst + n) (src + n) n m
    else move_up dst src n m

unfoldable pub memcpy : ℕ → ℕ → ℕ → Memory → Memory
unfolding memmove
memcpy dst src n m = memmove dst src n m

unfoldable pub strncmp : ℕ → ℕ → ℕ → Memory → ℤ
strncmp p q zero m = pos 0
strncmp p q (suc n) m =
    let rest = strncmp (p + 1) (q + 1) n m in
    if not (m p == 0) && (m p == m q) then rest else sub_ℕ (m p) (m q)

-- `while(n-- > 0) *s++ = 0;`
unfoldable pub pad : ℕ → ℕ → Memory → Memory
pad s zero m = m
pad s (suc n) m = pad (s + 1) n (update m s 0)

-- `while(n-- > 0 && (*s++ = *t++) != 0);` and the padding after it.
unfoldable pub strncpy : ℕ → ℕ → ℕ → Memory → Memory
unfolding pad
strncpy s t zero m = m
strncpy s t (suc n) m =
    let m' = update m s (m t) in
    let rest = strncpy (s + 1) (t + 1) n m' in if m t == 0 then pad (s + 1) n m' else rest

-- `while(--n > 0 && (*s++ = *t++) != 0); *s = 0;` with `n - 1` bytes left.
unfoldable pub safe_rounds : ℕ → ℕ → ℕ → Memory → Memory
safe_rounds s t zero m = update m s 0
safe_rounds s t (suc n) m =
    let m' = update m s (m t) in
    let rest = safe_rounds (s + 1) (t + 1) n m' in if m t == 0 then update m' (s + 1) 0 else rest

unfoldable pub safestrcpy : ℕ → ℕ → ℕ → Memory → Memory
unfolding safe_rounds
safestrcpy s t zero m = m
safestrcpy s t (suc n) m = safe_rounds s t n m

-- The loop of `strlen` from place `n`, for at most `fuel` bytes.
unfoldable pub strlen_from : ℕ → ℕ → ℕ → Memory → Option ℕ
strlen_from zero s n m = none
strlen_from (suc fuel) s n m =
    let rest = strlen_from fuel s (n + 1) m in if m (s + n) == 0 then some n else rest
