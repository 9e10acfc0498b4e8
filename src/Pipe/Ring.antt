-- ===== src/Pipe/Ring.antt =====
-- The bytes in a pipe of kernel/pipe.c, oldest first, as the counters and the array hold them.
use os_project_cs.Prelude.{
  ℕ, zero, suc, ◌+◌, ◌%◌, ◌^◌, ◌≤◌, ◌<◌, ◌≡◌, ◌≢◌, List, [], ◌∷◌, ◌++◌, get_or, set, length, ◌==◌,
  arith, refl, length-set, ◌∙◌, ap,
}
use os_project_cs.Spinlock.{Cpu}
use os_project_cs.Spinlock.Section.{IsFree, unlocked}
use os_project_cs.Pipe.{Chan, Pipe, pipesize, put, advance, is_full}

-- The array holds the bytes from counter `pos` on.
abbrev pub Holds : List ℕ → ℕ → List ℕ → Type 0
Holds bytes pos [] = Unit
Holds bytes pos (x ∷ q) = (get_or bytes (pos % pipesize) 0 ≡ x) × Holds bytes ((pos + 1) % 2 ^ 32) q

pub record Inv (s : Pipe) (q : List ℕ) : Type 0 where
  pub free : IsFree s.cpu s.lock
  pub array : length s.bytes ≡ pipesize
  pub small : s.nread < 2 ^ 32
  pub bounded : length q ≤ pipesize
  pub written : s.nwrite ≡ (s.nread + length q) % 2 ^ 32
  pub holds : Holds s.bytes s.nread q

pub get_or-set_self : (xs : List ℕ) (i v : ℕ) → i < length xs → get_or (set xs i v) i 0 ≡ v
get_or-set_self [] i v h = absurd (omega arith)
get_or-set_self (x ∷ xs) zero v h = refl
get_or-set_self (x ∷ xs) (suc i) v h = get_or-set_self xs i v (omega arith)

pub get_or-set_ne : (xs : List ℕ) (i j v : ℕ) → i ≢ j → get_or (set xs i v) j 0 ≡ get_or xs j 0
get_or-set_ne [] i j v h = refl
get_or-set_ne (x ∷ xs) zero zero v h = absurd (h refl)
get_or-set_ne (x ∷ xs) zero (suc j) v h = refl
get_or-set_ne (x ∷ xs) (suc i) zero v h = refl
get_or-set_ne (x ∷ xs) (suc i) (suc j) v h = get_or-set_ne xs i j v (λ e. h (ap suc e))

-- Writing at the counter just past the bytes adds one at the end.
pub Holds-snoc :
    (bytes : List ℕ) (pos end v : ℕ) (q : List ℕ)
    → length bytes ≡ pipesize
    → length q < pipesize
    → pos < 2 ^ 32
    → end ≡ (pos + length q) % 2 ^ 32
    → Holds bytes pos q
    → Holds (set bytes (end % pipesize) v) pos (q ++ (v ∷ []))
Holds-snoc bytes pos end v [] a l p e h =
    let same : end % pipesize ≡ pos % pipesize = omega arith in
    (rw same (get_or-set_self bytes (pos % pipesize) v (omega arith)), tt)
Holds-snoc bytes pos end v (x ∷ q) a l p e h = (
  get_or-set_ne bytes (end % pipesize) (pos % pipesize) v (omega arith) ∙ h.0,
  Holds-snoc bytes ((pos + 1) % 2 ^ 32) end v q a (omega arith) (omega arith) (omega arith) h.1,
)

pub length-snoc : (q : List ℕ) (v : ℕ) → length (q ++ (v ∷ [])) ≡ length q + 1
length-snoc [] v = refl
length-snoc (x ∷ q) v = omega (arith, length-snoc q v)

pub put-Inv :
    (ch : ℕ) (s : Pipe) (q : List ℕ)
    → Inv s q
    → length q < pipesize
    → Inv (put ch s) (q ++ (ch ∷ []))
unfolding put
put-Inv ch s q inv room =
    let a = inv.array in
    let w = inv.written in
    let p = inv.small in
    record {
      free = inv.free;
      array = length-set s.bytes (s.nwrite % pipesize) ch ∙ a;
      small = p;
      bounded = omega (arith, length-snoc q ch);
      written = omega (arith, length-snoc q ch);
      holds = Holds-snoc s.bytes s.nread s.nwrite ch q a room p w inv.holds;
    }

pub advance-Inv : (s : Pipe) (x : ℕ) (q : List ℕ) → Inv s (x ∷ q) → Inv (advance s) q
unfolding advance
advance-Inv s x q inv =
    let w = inv.written in
    let p = inv.small in
    let b = inv.bounded in
    record {
      free = inv.free;
      array = inv.array;
      small = omega arith;
      bounded = omega arith;
      written = omega arith;
      holds = inv.holds.1;
    }

-- The tests of the source, on counters that wrap, are the tests on the bytes.
pub is_full_lem : (s : Pipe) (q : List ℕ) → Inv s q → is_full s ≡ (length q == pipesize)
is_full_lem s q inv =
    let w = inv.written in let p = inv.small in let b = inv.bounded in ground arith

pub is_empty_lem : (s : Pipe) (q : List ℕ) → Inv s q → (s.nread == s.nwrite) ≡ (length q == 0)
is_empty_lem s q inv =
    let w = inv.written in let p = inv.small in let b = inv.bounded in ground arith

-- The end of a critical section keeps the bytes.
pub Inv-unlocked :
    (s : Pipe) (q : List ℕ) (c : Cpu) (l : List Chan)
    → Inv s q
    → IsFree c unlocked
    → Inv (record s { cpu = c; lock = unlocked; woken = l }) q
Inv-unlocked s q c l inv free = record {
  free = free;
  array = inv.array;
  small = inv.small;
  bounded = inv.bounded;
  written = inv.written;
  holds = inv.holds;
}
