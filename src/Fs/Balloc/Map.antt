-- ===== src/Fs/Balloc/Map.antt =====
-- The free map after `balloc` and `bfree` of kernel/fs.c: one bit changes.
use os_project_cs.Prelude.{
  ℕ, ◌+◌, ◌-◌, ◌/◌, ◌%◌, ◌<◌, ◌≡◌, ◌≢◌, refl, ◌∙◌, sym, ap, true, false, ◌==◌, ltb, leb,
  if◌then◌else◌, arith, ℕ_discrete, update, ==_refl, ==_ne,
}
use Prim.Native.Nat.{bit_or, bit_and}
use os_project_cs.Outcome.{Outcome, ok, panic, Message}
use os_project_cs.Log.{bsize}
use os_project_cs.Fs.{Fs, bpb, bblock, bread, brelse, holds, absorbed, log_write}
use os_project_cs.Fs.Room.{HasRoom, has_room, has_begun}
use os_project_cs.Fs.Balloc.{mask, balloc, bfree, balloc_rounds}
use os_project_cs.Fs.Balloc.Bits.{bit, or_bit, and_bit, or_byte, and_byte, test_bit}
use os_project_cs.Fs.Balloc.Search.{bit_at}
use os_project_cs.Fs.Balloc.Alloc.{used, MapOk, taken, Rounds, full, new_block, rounds}

-- A byte of a map block replaced so that bit `k` of it becomes `v`.
bit_at-update :
    (bytes : ℕ → ℕ) (x v j i : ℕ)
    → ((k : ℕ) → k < 8 → bit x k ≡ (if k == j % 8 then v else bit (bytes (j / 8)) k))
    → bit_at (update bytes (j / 8) x) i ≡ (if i == j then v else bit_at bytes i)
bit_at-update bytes x v j i new = elim (ℕ_discrete (j / 8) (i / 8)) [
  | yes same ↦
      let t : (j / 8 == i / 8) ≡ true = ground arith in
      let n = new (i % 8) (omega arith) in
      rw (t, n)
        (elim (ℕ_discrete i j) [
          | yes e ↦
              let a : (i == j) ≡ true = ground arith in
              let b : (i % 8 == j % 8) ≡ true = ground arith in rw (a, b) refl
          | no ne ↦
              let a : (i == j) ≡ false = ground arith in
              let b : (i % 8 == j % 8) ≡ false = ==_ne (i % 8) (j % 8) (λ e. ne (omega arith)) in
              rw (a, b, same) refl
        ])
  | no differ ↦
      let t : (j / 8 == i / 8) ≡ false = ==_ne (j / 8) (i / 8) differ in
      let a : (i == j) ≡ false = ==_ne i j (λ e. differ (ap (λ n. n / 8) (sym e))) in rw (t, a) refl
]

-- `s` with the map byte of block `a` replaced.
abbrev pub remapped : ℕ → ℕ → Fs → Fs
remapped a x s =
    let bno = bblock a s.sb in
    record s { block = update s.block bno (update (s.block bno) (a % bpb / 8) x) }

pub used-remapped :
    (a x v c : ℕ) (s : Fs)
    → ((k : ℕ)
        → k < 8
        → bit x k ≡ (if k == a % bpb % 8 then v else bit (s.block (bblock a s.sb) (a % bpb / 8)) k))
    → used (remapped a x s) c ≡ (if c == a then v else used s c)
used-remapped a x v c s new = elim (ℕ_discrete (bblock a s.sb) (bblock c s.sb)) [
  | yes same ↦
      let t : (bblock a s.sb == bblock c s.sb) ≡ true = ground arith in
      let changed = bit_at-update (s.block (bblock a s.sb)) x v (a % bpb) (c % bpb) new in
      rw (t, changed)
        (elim (ℕ_discrete c a) [
          | yes e ↦
              let p : (c == a) ≡ true = ground arith in
              let q : (c % bpb == a % bpb) ≡ true = ground arith in rw (p, q) refl
          | no ne ↦
              let p : (c == a) ≡ false = ground arith in
              let q : (c % bpb == a % bpb) ≡ false =
                ==_ne (c % bpb) (a % bpb) (λ e. ne (omega arith)) in
              rw (p, q, same) refl
        ])
  | no differ ↦
      let t : (bblock a s.sb == bblock c s.sb) ≡ false =
        ==_ne (bblock a s.sb) (bblock c s.sb) differ in
      let p : (c == a) ≡ false = ==_ne c a (λ e. differ (ap (λ n. bblock n s.sb) (sym e))) in
      rw (t, p) refl
]

-- Block `a` has been handed out, and `t` is the state after it.
pub record NewBlock (a : ℕ) (s t : Fs) : Type 0 where
  pub below : a < s.sb.size
  pub not_boot : a ≢ 0
  pub was_free : used s a ≡ 0
  pub first_free : (c : ℕ) → c < a → used s c ≡ 1
  pub map : (c : ℕ) → c < s.sb.size → used t c ≡ (if c == a then 1 else used s c)
  pub zeroed : (i : ℕ) → i < bsize → t.block a i ≡ 0
  pub others : (b : ℕ) → b ≢ a → b ≢ bblock a s.sb → t.block b ≡ s.block b
  pub ok_after : MapOk t
  pub same_sb : t.sb ≡ s.sb
  pub same_held : t.held ≡ s.held
  pub two_blocks : t.logged ≡ absorbed a (absorbed (bblock a s.sb) s.logged)

module _ (a : ℕ) (s : Fs) (m : MapOk s) (below : a < s.sb.size) (free : used s a ≡ 0) where
  -- No block of the map is free.
  not_map : (c : ℕ) → c < s.sb.size → a ≢ bblock c s.sb
  not_map c l e = let u = m.marked a c below l e in omega arith

  map_after : (c : ℕ) → c < s.sb.size → used (taken a s) c ≡ (if c == a then 1 else used s c)
  map_after c l =
      let t : (a == bblock c s.sb) ≡ false = ==_ne a (bblock c s.sb) (not_map c l) in
      let j = a % bpb in
      let x = s.block (bblock a s.sb) (j / 8) in
      rw t (
        used-remapped a (bit_or x (mask j)) 1 c s
          (λ k small. or_bit x (j % 8) k (m.bytes (bblock a s.sb) (j / 8)) (omega arith) small))

  bytes_after : (b i : ℕ) → (taken a s).block b i < 256
  bytes_after b i =
      let j = a % bpb in
      let x = s.block (bblock a s.sb) (j / 8) in
      let small = or_byte x (j % 8) (m.bytes (bblock a s.sb) (j / 8)) (omega arith) in
      ground (arith, m.bytes b i, m.bytes (bblock a s.sb) i, m.bytes a i)

  zeroed_after : (i : ℕ) → i < bsize → (taken a s).block a i ≡ 0
  zeroed_after i l =
      let t : (a == a) ≡ true = ==_refl a in
      let low : leb 0 i ≡ true = ground arith in
      let high : ltb i (0 + bsize) ≡ true = ground arith in rw (t, low, high) refl

  others_after : (b : ℕ) → b ≢ a → b ≢ bblock a s.sb → (taken a s).block b ≡ s.block b
  others_after b ne ne' =
      let t : (a == b) ≡ false = ==_ne a b (λ e. ne (sym e)) in
      let u : (bblock a s.sb == b) ≡ false = ==_ne (bblock a s.sb) b (λ e. ne' (sym e)) in
      rw (t, u) refl

  taken-MapOk : MapOk (taken a s)
  taken-MapOk = record {
    bytes = bytes_after;
    marked = λ b c lb lc e. map_after b lb ∙ marked_still b c lb lc e;
    boot = boot_still;
    map_free = m.map_free;
    free_free = λ b l u. m.free_free b l (still b l (sym (map_after b l) ∙ u));
  }
    where
      boot_still : used (taken a s) 0 ≡ 1
      boot_still = let u = m.boot in map_after 0 (omega arith) ∙ ground arith

      marked_still :
          (b c : ℕ)
          → b < s.sb.size
          → c < s.sb.size
          → b ≡ bblock c s.sb
          → (if b == a then 1 else used s b) ≡ 1
      marked_still b c lb lc e = let u = m.marked b c lb lc e in ground arith

      still : (b : ℕ) → b < s.sb.size → (if b == a then 1 else used s b) ≡ 0 → used s b ≡ 0
      still b l e = ground arith

  taken-NewBlock : ((c : ℕ) → c < a → used s c ≡ 1) → NewBlock a s (taken a s)
  taken-NewBlock first = record {
    below = below;
    not_boot = λ e. let u = m.boot in ground arith;
    was_free = free;
    first_free = first;
    map = map_after;
    zeroed = zeroed_after;
    others = others_after;
    ok_after = taken-MapOk;
    same_sb = refl;
    same_held = refl;
    two_blocks = refl;
  }

-- How `balloc` ends: with 0 and nothing changed, or with a new block.
pub data Allocated (s : Fs) : Outcome (ℕ × Fs) → Type 0 where
  full_disk : ((b : ℕ) → b < s.sb.size → used s b ≡ 1) → Allocated s (ok (0, s))
  allocated : {t : Fs} (a : ℕ) → NewBlock a s t → Allocated s (ok (a, t))

-- `balloc` in an operation with room for two blocks in the log, with block 0 and the blocks of the map
-- in use and no buffer of the map or of a free block locked by the process: it hands out the first block
-- that the free map has as free, marks it and no other block as in use, clears it, and leaves every
-- block but it and its map block alone; it hands both to the log, and keeps no buffer locked. It returns
-- 0 exactly if every block is in use, and changes nothing then. It neither panics nor waits for a
-- buffer, and its loops end.
pub balloc-Allocated : (s : Fs) → MapOk s → HasRoom 2 s → Allocated s (balloc s)
unfolding balloc
balloc-Allocated s m room =
    go (balloc_rounds (s.sb.size / bpb + 1) 0 s)
      (rounds (s.sb.size / bpb + 1) 0 s m room refl (omega arith) (λ c l. absurd (omega arith)))
  where
    go : (o : Outcome (ℕ × Fs)) → Rounds s o → Allocated s o
    go _ (full all) = full_disk all
    go _ (new_block a below free first) = allocated a (taken-NewBlock a s m below free first)

-- `bfree` of a block in use.
pub record Freed (a : ℕ) (s : Fs) : Type 0 where
  pub last : Fs
  pub runs : bfree a s ≡ ok last
  pub map : (c : ℕ) → used last c ≡ (if c == a then 0 else used s c)
  pub others : (b : ℕ) → b ≢ bblock a s.sb → last.block b ≡ s.block b
  pub bytes : (b i : ℕ) → last.block b i < 256
  pub same_sb : last.sb ≡ s.sb
  pub same_held : last.held ≡ s.held
  pub one_block : last.logged ≡ absorbed (bblock a s.sb) s.logged

-- `bfree` of a block in use, with its map block not locked and in an operation with room for a block in
-- the log, marks it and no other block as free.
pub bfree-Freed :
    (a : ℕ) (s : Fs)
    → ((b i : ℕ) → s.block b i < 256)
    → holds s.held (bblock a s.sb) ≡ false
    → used s a ≡ 1
    → HasRoom 1 s
    → Freed a s
unfolding bfree bread brelse log_write
bfree-Freed a s bytes free_map in_use room =
    let j = a % bpb in
    let bno = bblock a s.sb in
    let x = s.block bno (j / 8) in
    let y = bit_and x (255 - mask j) in
    let test : (bit_and x (mask j) == 0) ≡ false =
      test_bit x (j % 8) (bytes bno (j / 8)) (omega arith) ∙ ground arith in
    let same : (bno == bno) ≡ true = ==_refl bno in
    let small = and_byte x (j % 8) (bytes bno (j / 8)) (omega arith) in
    record {
      last = record (remapped a y s) { logged = absorbed bno s.logged };
      runs = rw (free_map, test, has_room 0 s room, has_begun 1 s room, same) refl;
      map = λ c.
          used-remapped a y 0 c s (λ k l. and_bit x (j % 8) k (bytes bno (j / 8)) (omega arith) l);
      others = λ b ne. let t : (bno == b) ≡ false = ==_ne bno b (λ e. ne (sym e)) in rw t refl;
      bytes = λ b i. ground (arith, bytes b i, bytes bno i);
      same_sb = refl;
      same_held = refl;
      one_block = refl;
    }

-- `bfree` of a block that is free already panics.
pub bfree_panics :
    (a : ℕ) (s : Fs)
    → ((b i : ℕ) → s.block b i < 256)
    → holds s.held (bblock a s.sb) ≡ false
    → used s a ≡ 0
    → bfree a s ≡ panic Message.freeing_free_block
unfolding bfree bread
bfree_panics a s bytes free_map free =
    let j = a % bpb in
    let x = s.block (bblock a s.sb) (j / 8) in
    let test : (bit_and x (mask j) == 0) ≡ true =
      test_bit x (j % 8) (bytes (bblock a s.sb) (j / 8)) (omega arith) ∙ ground arith in
    rw (free_map, test) refl
