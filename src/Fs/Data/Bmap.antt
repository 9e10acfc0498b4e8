-- ===== src/Fs/Data/Bmap.antt =====
-- `bmap` of kernel/fs.c at blocks of the inode that are allocated.
use os_project_cs.Prelude.{
  ℕ, ◌-◌, ◌*◌, ◌<◌, ◌≤◌, ◌≡◌, ◌≢◌, refl, true, false, ltb, if◌then◌else◌, arith, get_or, ==_ne,
  dec_lt, subst, lt→ltb, le→ltb-false, ◌∷◌,
}
use os_project_cs.Outcome.{ok}
use os_project_cs.Fs.{Fs, holds}
use os_project_cs.Fs.Balloc.Alloc.{bread_free, brelse_held}
use os_project_cs.Fs.Inode.{Inode, ndirect, get_word}
use os_project_cs.Fs.Itable.{nindirect}
use os_project_cs.Fs.Data.{slot_block, indirect_block, bmap, maxfile}

-- The block that lists the blocks after the first 12.
abbrev pub indirect_of : Inode → ℕ
indirect_of ip = get_or ip.content.addrs ndirect 0

-- Block `bn` of the inode, by its lists.
abbrev pub block_of : (ℕ → ℕ → ℕ) → Inode → ℕ → ℕ
block_of block ip bn =
    if ltb bn ndirect
    then get_or ip.content.addrs bn 0
    else get_word (block (indirect_of ip)) (4 * (bn - ndirect))

-- Block `bn` of the inode is allocated, and the process has not locked the blocks it takes.
pub record IsMapped (s : Fs) (ip : Inode) (bn : ℕ) : Type 0 where
  pub below : bn < maxfile
  pub allocated : block_of s.block ip bn ≢ 0
  pub free : holds s.held (block_of s.block ip bn) ≡ false
  pub indirect_allocated : ndirect ≤ bn → indirect_of ip ≢ 0
  pub indirect_free : ndirect ≤ bn → holds s.held (indirect_of ip) ≡ false

pub block_of_direct :
    (block : ℕ → ℕ → ℕ) (ip : Inode) (bn : ℕ)
    → bn < ndirect
    → block_of block ip bn ≡ get_or ip.content.addrs bn 0
block_of_direct block ip bn l = rw (lt→ltb bn ndirect l) refl

pub block_of_indirect :
    (block : ℕ → ℕ → ℕ) (ip : Inode) (bn : ℕ)
    → ndirect ≤ bn
    → block_of block ip bn ≡ get_word (block (indirect_of ip)) (4 * (bn - ndirect))
block_of_indirect block ip bn l = rw (le→ltb-false bn ndirect l) refl

slot_allocated :
    (k : ℕ) (ip : Inode) (s : Fs)
    → get_or ip.content.addrs k 0 ≢ 0
    → slot_block k ip s ≡ ok (get_or ip.content.addrs k 0, ip, s)
unfolding slot_block
slot_allocated k ip s ne = rw (==_ne (get_or ip.content.addrs k 0) 0 ne) refl

indirect_allocated :
    (b k : ℕ) (s : Fs)
    → get_word (s.block b) (4 * k) ≢ 0
    → indirect_block b k s ≡ ok (get_word (s.block b) (4 * k), s)
unfolding indirect_block
indirect_allocated b k s ne = rw (==_ne (get_word (s.block b) (4 * k)) 0 ne) refl

-- At an allocated block `bmap` finds it and changes nothing.
pub bmap-IsMapped :
    (s : Fs) (ip : Inode) (bn : ℕ)
    → IsMapped s ip bn
    → bmap bn ip s ≡ ok (block_of s.block ip bn, ip, s)
unfolding bmap
bmap-IsMapped s ip bn h = elim (dec_lt bn ndirect) [
  | yes direct ↦
      let e = block_of_direct s.block ip bn direct in
      let found = subst (λ a. a ≢ 0) e h.allocated in
      rw (lt→ltb bn ndirect direct, slot_allocated bn ip s found) refl
  | no later ↦
      let l : ndirect ≤ bn = omega arith in
      let b = indirect_of ip in
      let e = block_of_indirect s.block ip bn l in
      let found = subst (λ a. a ≢ 0) e h.allocated in
      let u : ltb (bn - ndirect) nindirect ≡ true =
        lt→ltb (bn - ndirect) nindirect (below l h.below) in
      let t = record s { held = b ∷ s.held } in
      rw
        (
          le→ltb-false bn ndirect l,
          u,
          slot_allocated ndirect ip s (h.indirect_allocated l),
          ==_ne b 0 (h.indirect_allocated l),
          bread_free b s (h.indirect_free l),
          indirect_allocated b (bn - ndirect) t found,
          brelse_held b t s.held refl,
        )
        refl
]
  where
    below : ndirect ≤ bn → bn < maxfile → bn - ndirect < nindirect
    below l u = omega arith
