-- ===== src/Fs/Room.antt =====
-- The room in the log that the functions of kernel/fs.c need.
use os_project_cs.Prelude.{
  ℕ, suc, ◌+◌, ◌<◌, ◌≤◌, ◌≡◌, false, List, length, leb, ltb, inl, inr, Bool-cases, arith,
  lt→leb-false, le→ltb-false,
}
use os_project_cs.Fs.{Fs, holds, absorbed}

-- The process has begun an operation, and the log has room for `n` blocks more.
abbrev pub HasRoom : ℕ → Fs → Type 0
HasRoom n s = (0 < s.outstanding) × (length s.logged + n ≤ s.room)

pub length-absorbed : (b : ℕ) (l : List ℕ) → length (absorbed b l) ≤ length l + 1
length-absorbed b l = elim (Bool-cases (holds l b)) [
  | inl t ↦ rw t (omega arith)
  | inr f ↦ rw f (omega arith)
]

-- The two tests of `log_write`.
pub has_room : (n : ℕ) (s : Fs) → HasRoom (suc n) s → leb s.room (length s.logged) ≡ false
has_room n s h = lt→leb-false s.room (length s.logged) (omega (arith, h.1))

pub has_begun : (n : ℕ) (s : Fs) → HasRoom n s → ltb s.outstanding 1 ≡ false
has_begun n s h = le→ltb-false s.outstanding 1 (omega (arith, h.0))

pub room_left :
    (b n : ℕ) (s : Fs) → HasRoom (suc n) s → HasRoom n (record s { logged = absorbed b s.logged })
room_left b n s h = (h.0, omega (arith, h.1, length-absorbed b s.logged))
