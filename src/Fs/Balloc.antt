-- ===== src/Fs/Balloc.antt =====
-- The free map of kernel/fs.c: bzero, balloc and bfree.
pub mod Bits
pub mod Search
pub mod Alloc
pub mod Map
use os_project_cs.Prelude.{
  ℕ, zero, suc, ◌+◌, ◌-◌, ◌*◌, ◌/◌, ◌%◌, ◌^◌, Bool, true, false, not, ◌&&◌, List, [], ◌∷◌, Option,
  none, some, ◌==◌, ltb, leb, if◌then◌else◌, update, fill,
}
use Prim.Native.Nat.{bit_and, bit_or}
use os_project_cs.Outcome.{Message, Outcome, ok, panic, blocked, ◌>>=◌}
use os_project_cs.Log.{bsize}
use os_project_cs.Fs.{Superblock, Fs, bpb, bblock, bread, brelse, log_write, set_byte}

unfoldable pub bzero : ℕ → Fs → Outcome Fs
unfolding bread brelse log_write
bzero bno s = do
  s1 ← bread bno s
  let s2 = record s1 { block = update s1.block bno (fill (s1.block bno) 0 bsize 0) }
  s3 ← log_write bno s2
  brelse bno s3

-- `1 << (bi % 8)`.
abbrev pub mask : ℕ → ℕ
mask bi = 2 ^ (bi % 8)

-- The inner loop of `balloc` over a bitmap block from bit `bi` on, with `k` bits left: the first bit
-- below `size` that is 0.
unfoldable pub find_bit : ℕ → ℕ → ℕ → ℕ → (ℕ → ℕ) → Option ℕ
find_bit zero b bi size bytes = none
find_bit (suc k) b bi size bytes =
    let rest = find_bit k b (bi + 1) size bytes in
    if not (ltb (b + bi) size)
    then none
    else if bit_and (bytes (bi / 8)) (mask bi) == 0
    then some bi
    else rest

-- The body of the outer loop at a free bit: the bit is set and the block zeroed.
unfoldable pub take_bit : ℕ → ℕ → Fs → Outcome Fs
unfolding bzero brelse log_write
take_bit b bi s = do
  let bno = bblock b s.sb
  let s1 = set_byte bno (bi / 8) (bit_or (s.block bno (bi / 8)) (mask bi)) s
  s2 ← log_write bno s1
  s3 ← brelse bno s2
  bzero (b + bi) s3

-- The outer loop of `balloc` from block `b` on, for at most `k` bitmap blocks: the block, or 0.
unfoldable pub balloc_rounds : ℕ → ℕ → Fs → Outcome (ℕ × Fs)
balloc_rounds zero b s = ok (0, s)
balloc_rounds (suc k) b s =
    let round = (do
      let bno = bblock b s.sb
      s1 ← bread bno s
      elim (find_bit bpb b 0 s.sb.size (s1.block bno)) [
        | some bi ↦ do s2 ← take_bit b bi s1; ok (b + bi, s2)
        | none ↦ do s2 ← brelse bno s1; balloc_rounds k (b + bpb) s2
      ]) in
    if ltb b s.sb.size then round else ok (0, s)

unfoldable pub balloc : Fs → Outcome (ℕ × Fs)
balloc s = balloc_rounds (s.sb.size / bpb + 1) 0 s

unfoldable pub bfree : ℕ → Fs → Outcome Fs
unfolding bread brelse log_write
bfree b s = do
  let bno = bblock b s.sb
  let bi = b % bpb
  s1 ← bread bno s
  if bit_and (s1.block bno (bi / 8)) (mask bi) == 0 then panic Message.freeing_free_block else do
    let s2 = set_byte bno (bi / 8) (bit_and (s1.block bno (bi / 8)) (255 - mask bi)) s1
    s3 ← log_write bno s2
    brelse bno s3
