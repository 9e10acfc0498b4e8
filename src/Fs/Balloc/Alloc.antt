-- ===== src/Fs/Balloc/Alloc.antt =====
-- `balloc` of kernel/fs.c: the block that it hands out, and the free map after it.
use os_project_cs.Prelude.{
  ℕ, zero, suc, ◌+◌, ◌-◌, ◌*◌, ◌/◌, ◌%◌, ◌<◌, ◌≤◌, ◌≡◌, refl, ◌∙◌, ap, true, false, List, ◌∷◌,
  Option, none, some, ◌==◌, ltb, arith, dec_lt, Bool-cases, inl, inr, update, fill, ==_refl,
}
use Prim.Native.Nat.{bit_or}
use os_project_cs.Outcome.{Outcome, ok, ◌>>=◌}
use os_project_cs.Log.{bsize}
use os_project_cs.Fs.{Fs, bpb, bblock, bread, brelse, holds, absorbed, log_write}
use os_project_cs.Fs.Room.{HasRoom, has_room, has_begun, room_left}
use os_project_cs.Fs.Balloc.{bzero, mask, find_bit, take_bit, balloc_rounds}
use os_project_cs.Fs.Balloc.Search.{bit_at, Found, none_free, free_at, find_bit-Found}

-- The bit of block `b` in the free map: 1 if it is in use.
abbrev pub used : Fs → ℕ → ℕ
used s b = bit_at (s.block (bblock b s.sb)) (b % bpb)

-- What the functions on the free map rely on: blocks hold bytes, the map has the blocks of the map
-- itself and block 0, the boot block, marked as in use, and the process has locked no buffer of the map
-- or of a free block.
pub record MapOk (s : Fs) : Type 0 where
  pub bytes : (b i : ℕ) → s.block b i < 256
  pub marked : (b c : ℕ) → b < s.sb.size → c < s.sb.size → b ≡ bblock c s.sb → used s b ≡ 1
  pub boot : used s 0 ≡ 1
  pub map_free : (c : ℕ) → c < s.sb.size → holds s.held (bblock c s.sb) ≡ false
  pub free_free : (b : ℕ) → b < s.sb.size → used s b ≡ 0 → holds s.held b ≡ false

-- `s` after block `a` was taken: its bit set, and its bytes cleared.
abbrev pub taken : ℕ → Fs → Fs
taken a s =
    let bno = bblock a s.sb in
    let j = a % bpb in
    let block =
      update s.block bno (update (s.block bno) (j / 8) (bit_or (s.block bno (j / 8)) (mask j))) in
    record s {
      block = update block a (fill (block a) 0 bsize 0);
      logged = absorbed a (absorbed bno s.logged);
    }

pub bread_free :
    (b : ℕ) (s : Fs) → holds s.held b ≡ false → bread b s ≡ ok (record s { held = b ∷ s.held })
unfolding bread
bread_free b s h = rw h refl

pub brelse_held :
    (b : ℕ) (s : Fs) (l : List ℕ) → s.held ≡ b ∷ l → brelse b s ≡ ok (record s { held = l })
unfolding brelse
brelse_held b s l e = let same : (b == b) ≡ true = ==_refl b in rw (e, same) refl

take_bit_lem :
    (b bi : ℕ) (s : Fs)
    → HasRoom 2 s
    → holds s.held (b + bi) ≡ false
    → bblock (b + bi) s.sb ≡ bblock b s.sb
    → (b + bi) % bpb ≡ bi
    → take_bit b bi (record s { held = bblock b s.sb ∷ s.held }) ≡ ok (taken (b + bi) s)
unfolding take_bit bzero bread brelse log_write
take_bit_lem b bi s room free_of e f =
    let before = has_room 1 s room in
    let begun = has_begun 2 s room in
    let t = record s { logged = absorbed (bblock b s.sb) s.logged } in
    let after = has_room 0 t (room_left (bblock b s.sb) 1 s room) in
    let same : (bblock b s.sb == bblock b s.sb) ≡ true = ==_refl (bblock b s.sb) in
    let self : (b + bi == b + bi) ≡ true = ==_refl (b + bi) in
    rw (before, begun, same, free_of, after, begun, self, e, f) refl

pub data Rounds (s : Fs) : Outcome (ℕ × Fs) → Type 0 where
  full : ((b : ℕ) → b < s.sb.size → used s b ≡ 1) → Rounds s (ok (0, s))
  new_block :
      (a : ℕ)
      → a < s.sb.size
      → used s a ≡ 0
      → ((c : ℕ) → c < a → used s c ≡ 1)
      → Rounds s (ok (a, taken a s))

-- The bit of a block in the map block that begins at `b`.
used_within :
    (s : Fs) (b j : ℕ) → b % bpb ≡ 0 → j < bpb → used s (b + j) ≡ bit_at (s.block (bblock b s.sb)) j
used_within s b j aligned small =
    let e : (b + j) / bpb ≡ b / bpb = omega arith in
    let f : (b + j) % bpb ≡ j = omega arith in rw (e, f) refl

used_next :
    (s : Fs) (b : ℕ)
    → b % bpb ≡ 0
    → ((c : ℕ) → c < b → c < s.sb.size → used s c ≡ 1)
    → (n : ℕ) → n ≤ bpb
    → ((j : ℕ) → j < n → b + j < s.sb.size → bit_at (s.block (bblock b s.sb)) j ≡ 1)
    → (c : ℕ) → c < b + n
    → c < s.sb.size
    → used s c ≡ 1
used_next s b aligned before n small now c low below = elim (dec_lt c b) [
  | yes l ↦ before c l below
  | no l ↦
      let e : c ≡ b + (c - b) = omega arith in
      ap (used s) e
      ∙ used_within s b (c - b) aligned (omega arith)
      ∙ now (c - b) (omega arith) (omega arith)
]

-- The body of the outer loop at a block of the map, once it is searched.
searched :
    (k b : ℕ) (s : Fs)
    → MapOk s
    → HasRoom 2 s
    → b % bpb ≡ 0
    → ((c : ℕ) → c < b → c < s.sb.size → used s c ≡ 1)
    → (((c : ℕ) → c < b + bpb → c < s.sb.size → used s c ≡ 1)
        → Rounds s (balloc_rounds k (b + bpb) s))
    → (o : Option ℕ) → Found bpb b 0 s.sb.size (s.block (bblock b s.sb)) o
    → Rounds s (elim o as (λ _. Outcome (ℕ × Fs)) [
      | none ↦ do
        s2 ← brelse (bblock b s.sb) (record s { held = bblock b s.sb ∷ s.held })
        balloc_rounds k (b + bpb) s2
      | some bi ↦ do
        s2 ← take_bit b bi (record s { held = bblock b s.sb ∷ s.held })
        ok (b + bi, s2)
    ])
searched k b s m room aligned before go none (none_free all) =
    rw (brelse_held (bblock b s.sb) (record s { held = bblock b s.sb ∷ s.held }) s.held refl) (
      go (
        used_next s b aligned before bpb (omega arith)
          (λ j low below. all j (omega arith) (omega arith) below)))
searched k b s m room aligned before go (some bi) (free_at _ low high under free first) =
    let e : (b + bi) / bpb ≡ b / bpb = omega arith in
    let f : (b + bi) % bpb ≡ bi = omega arith in
    let is_free : used s (b + bi) ≡ 0 = used_within s b bi aligned (omega arith) ∙ free in
    rw
      (take_bit_lem b bi s room (m.free_free (b + bi) under is_free)
        (ap (λ n. n + s.sb.bmapstart) e) f)
      (new_block (b + bi) under is_free (λ c l.
        used_next s b aligned before bi (omega arith) (λ j h below. first j (omega arith) h) c l
          (omega arith)))

pub rounds :
    (k b : ℕ) (s : Fs)
    → MapOk s
    → HasRoom 2 s
    → b % bpb ≡ 0
    → s.sb.size ≤ b + k * bpb
    → ((c : ℕ) → c < b → c < s.sb.size → used s c ≡ 1)
    → Rounds s (balloc_rounds k b s)
unfolding balloc_rounds
rounds zero b s m room aligned enough before = full (λ c below. before c (omega arith) below)
rounds (suc k) b s m room aligned enough before = elim (Bool-cases (ltb b s.sb.size)) [
  | inr past ↦ rw past (full (λ c below. before c (ground arith) below))
  | inl more ↦
      let bno = bblock b s.sb in
      rw (more, bread_free bno s (m.map_free b (ground arith)))
        (searched k b s m room aligned before
          (rounds k (b + bpb) s m room (omega arith) (omega arith))
          (find_bit bpb b 0 s.sb.size (s.block bno))
          (find_bit-Found bpb b 0 s.sb.size (s.block bno) (m.bytes bno)))
]
