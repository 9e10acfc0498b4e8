-- ===== src/Fs/Itable.antt =====
-- The inode table of kernel/fs.c: iget, idup, ialloc, itrunc and iput.
pub mod Refs
pub mod Iget
use os_project_cs.Prelude.{
  ℕ, zero, suc, ◌+◌, ◌-◌, ◌*◌, ◌/◌, ◌%◌, ◌^◌, Bool, true, false, not, ◌&&◌, ◌||◌, List, [], ◌∷◌,
  Option, none, some, ◌==◌, ltb, leb, if◌then◌else◌, update, fill, get_elem?, set, replicate, take,
  get_or,
}
use os_project_cs.Outcome.{Message, Outcome, ok, panic, blocked, ◌>>=◌}
use os_project_cs.Spinlock.{Cpu, Spinlock, initlock, acquire, release}
use os_project_cs.Log.{bsize}
use os_project_cs.Fs.{Superblock, Fs, bread, brelse, log_write}
use os_project_cs.Fs.Balloc.{bfree}
use os_project_cs.Fs.Inode.{
  Content, Inode, iblock, place, dinode_size, ndirect, get_short, put_short, get_word, read_dinode,
  write_dinode, iupdate,
}

-- `itable`, the hart that runs, and the blocks of the file system.
pub record Itable : Type 0 where
  pub cpu : Cpu
  pub lock : Spinlock
  pub inode : List Inode
  pub fs : Fs

-- The table entry is in use for the inode.
abbrev pub is_for : ℕ → ℕ → Inode → Bool
is_for dev inum ip = (ltb 0 ip.ref && (ip.dev == dev)) && (ip.inum == inum)

-- `if(empty == 0 && ip->ref == 0) empty = ip;`
abbrev pub remember : Option ℕ → ℕ → Inode → Option ℕ
remember (some e) i ip = some e
remember none i ip = if ip.ref == 0 then some i else none

-- The loop of `iget` from entry `i` on: the entry of the inode, or the first empty one.
unfoldable pub iget_rounds : ℕ → ℕ → ℕ → Option ℕ → List Inode → Bool × Option ℕ
iget_rounds dev inum i empty [] = (false, empty)
iget_rounds dev inum i empty (ip ∷ ips) =
    let rest = iget_rounds dev inum (i + 1) (remember empty i ip) ips in
    if is_for dev inum ip then (true, some i) else rest

-- The entry `i` changed; a pointer to an entry always points into the table.
abbrev pub change : (Inode → Inode) → ℕ → List Inode → List Inode
change f i ips = elim (get_elem? ips i) [ none ↦ ips | some ip ↦ set ips i (f ip) ]

-- `iget`, with `ref` an `int`.
unfoldable pub iget : ℕ → ℕ → Itable → Outcome (ℕ × Itable)
unfolding iget_rounds
iget dev inum s = do
  (c, lk) ← acquire s.cpu s.lock
  let found = iget_rounds dev inum 0 none s.inode
  elim found.1 [
    | none ↦ panic Message.iget_no_inodes
    | some i ↦ do
      let recycled = λ (ip : Inode). record ip { dev = dev; inum = inum; ref = 1; valid = false }
      let counted = λ (ip : Inode). record ip { ref = ip.ref + 1 }
      (c', lk') ← release c lk
      ok (
        i,
        record s {
          cpu = c';
          lock = lk';
          inode = change (if found.0 then counted else recycled) i s.inode;
        },
      )
  ]

unfoldable pub idup : ℕ → Itable → Outcome Itable
idup i s = do
  (c, lk) ← acquire s.cpu s.lock
  (c', lk') ← release c lk
  ok (record s {
    cpu = c';
    lock = lk';
    inode = change (λ ip. record ip { ref = ip.ref + 1 }) i s.inode;
  })

-- The first loop of `itrunc` over block numbers: every one that is not 0 is freed.
unfoldable pub free_blocks : List ℕ → Fs → Outcome Fs
unfolding bfree
free_blocks [] s = ok s
free_blocks (a ∷ l) s = do s' ← (if a == 0 then ok s else bfree a s); free_blocks l s'

abbrev pub nindirect : ℕ
nindirect = bsize / 4

-- The second loop of `itrunc` over the words of block `b` from word `j` on, `k` of them.
unfoldable pub free_indirect : ℕ → ℕ → ℕ → Fs → Outcome Fs
unfolding bfree get_word
free_indirect zero b j s = ok s
free_indirect (suc k) b j s = do
  let a = get_word (s.block b) (4 * j)
  s' ← (if a == 0 then ok s else bfree a s)
  free_indirect k b (j + 1) s'

-- `itrunc`.
unfoldable pub itrunc : Inode → Fs → Outcome (Inode × Fs)
unfolding free_blocks bread brelse iupdate
itrunc ip s = do
  let indirect = get_or ip.content.addrs ndirect 0
  s1 ← free_blocks (take ndirect ip.content.addrs) s
  s2 ←
      (if indirect == 0 then ok s1 else (do
        t ← bread indirect s1
        t1 ← free_indirect nindirect indirect 0 t
        t2 ← brelse indirect t1
        bfree indirect t2))
  let ip' = record ip {
    content = record (ip.content) { size = 0; addrs = replicate (ndirect + 1) 0 };
  }
  s3 ← iupdate ip' s2
  ok (ip', s3)

-- `iput` of entry `i`, which is `ip`; the caller holds a reference, so that `ref` is at least 1.
unfoldable pub iput_entry : ℕ → Inode → Itable → Outcome Itable
unfolding itrunc iupdate
iput_entry i ip s = do
  (c, lk) ← acquire s.cpu s.lock
  if ((ip.ref == 1) && ip.valid) && (ip.content.nlink == 0)
      then (do
        (c1, lk1) ← (if ip.locked then blocked else release c lk)
        (ip1, fs1) ← itrunc (record ip { locked = true }) s.fs
        let ip2 = record ip1 { content = record (ip1.content) { type = 0 } }
        fs2 ← iupdate ip2 fs1
        (c2, lk2) ← acquire c1 lk1
        (c3, lk3) ← release c2 lk2
        ok (record {
          cpu = c3;
          lock = lk3;
          inode = set s.inode i (record ip2 { locked = false; valid = false; ref = ip2.ref - 1 });
          fs = fs2;
        }))
      else (do
        (c1, lk1) ← release c lk
        ok (record s {
          cpu = c1;
          lock = lk1;
          inode = set s.inode i (record ip { ref = ip.ref - 1 });
        }))

unfoldable pub iput : ℕ → Itable → Outcome Itable
iput i s = elim (get_elem? s.inode i) [ none ↦ blocked | some ip ↦ iput_entry i ip s ]

-- The loop of `ialloc` from inode `inum` on, for at most `k` inodes: the inode, cleared but for its
-- type, or 0.
unfoldable pub ialloc_rounds : ℕ → ℕ → ℕ → Fs → Outcome (ℕ × Fs)
ialloc_rounds zero inum type s = ok (0, s)
ialloc_rounds (suc k) inum type s =
    let round = (do
      let b = iblock inum s.sb
      let a = place inum
      s1 ← bread b s
      if get_short (s1.block b) a == 0
          then (do
            let cleared = put_short type a (fill (s1.block b) a dinode_size 0)
            s2 ← log_write b (record s1 { block = update s1.block b cleared })
            s3 ← brelse b s2
            ok (inum, s3))
          else (do s2 ← brelse b s1; ialloc_rounds k (inum + 1) type s2)) in
    if ltb inum s.sb.ninodes then round else ok (0, s)

-- `ialloc`: the entry of the new inode, or the null pointer.
unfoldable pub ialloc : ℕ → ℕ → Itable → Outcome (Option ℕ × Itable)
unfolding ialloc_rounds iget
ialloc dev type s = do
  (inum, fs) ← ialloc_rounds s.fs.sb.ninodes 1 type s.fs
  if inum == 0
      then ok (none, record s { fs = fs })
      else do (i, s') ← iget dev inum (record s { fs = fs }); ok (some i, s')
