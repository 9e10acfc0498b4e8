-- ===== src/Fs/Data.antt =====
-- The contents of inodes in kernel/fs.c: bmap, stati, readi and writei. A `uint` is its number, and
-- the result -1 is 2 ^ 32 - 1. `copyout` and `copyin` of kernel/vm.c on the memory of the process are
-- arguments; they say whether they succeed, and what memory or buffer they leave.
pub mod Bmap
pub mod Read
pub mod Write
pub mod Written
use os_project_cs.Prelude.{
  ℕ, zero, suc, ◌+◌, ◌-◌, ◌*◌, ◌/◌, ◌%◌, ◌^◌, Bool, true, false, not, ◌&&◌, ◌||◌, List, [], ◌∷◌,
  Option, none, some, ◌==◌, ltb, leb, if◌then◌else◌, update, get_or, set, min,
}
use os_project_cs.Outcome.{Message, Outcome, ok, panic, blocked, ◌>>=◌}
use os_project_cs.Log.{bsize}
use os_project_cs.Fs.{Superblock, Fs, bread, brelse, log_write}
use os_project_cs.Fs.Balloc.{balloc}
use os_project_cs.Fs.Inode.{Content, Inode, Bytes, ndirect, get_word, put_word, iupdate}
use os_project_cs.Fs.Itable.{nindirect}

-- `ip->addrs[k]`, allocated if it is 0: the block, or 0.
unfoldable pub slot_block : ℕ → Inode → Fs → Outcome (ℕ × Inode × Fs)
slot_block k ip s =
    let addr = get_or ip.content.addrs k 0 in
    if not (addr == 0) then ok (addr, ip, s) else do
      (a, s') ← balloc s
      if a == 0
          then ok (0, ip, s')
          else ok (
            a,
            record ip { content = record (ip.content) { addrs = set ip.content.addrs k a } },
            s',
          )

-- Word `k` of the indirect block `b`, which is locked, allocated if it is 0.
unfoldable pub indirect_block : ℕ → ℕ → Fs → Outcome (ℕ × Fs)
unfolding get_word put_word log_write
indirect_block b k s =
    let addr = get_word (s.block b) (4 * k) in
    if not (addr == 0) then ok (addr, s) else do
      (a, s') ← balloc s
      if a == 0 then ok (0, s') else do
        let bytes = put_word a (4 * k) (s'.block b)
        s1 ← log_write b (record s' { block = update s'.block b bytes })
        ok (a, s1)

unfoldable pub bmap : ℕ → Inode → Fs → Outcome (ℕ × Inode × Fs)
unfolding slot_block indirect_block bread brelse
bmap bn ip s =
    if ltb bn ndirect
    then slot_block bn ip s
    else if ltb (bn - ndirect) nindirect
    then (do
      (b, ip', s1) ← slot_block ndirect ip s
      if b == 0 then ok (0, ip', s1) else do
        s2 ← bread b s1
        (a, s3) ← indirect_block b (bn - ndirect) s2
        s4 ← brelse b s3
        ok (a, ip', s4))
    else panic Message.bmap_out_of_range

-- `struct stat`.
pub record Stat : Type 0 where
  pub dev : ℕ
  pub ino : ℕ
  pub type : ℕ
  pub nlink : ℕ
  pub size : ℕ

unfoldable pub stati : Inode → Stat
stati ip = record {
  dev = ip.dev;
  ino = ip.inum;
  type = ip.content.type;
  nlink = ip.content.nlink;
  size = ip.content.size;
}

-- `copyout` to an address: the bytes, how many, and the memory.
abbrev pub Copyout : Type 0
Copyout = ℕ → Bytes → ℕ → Bytes → Bool × Bytes

-- `n` bytes of `from` from place `a` on, written to `dst` on.
abbrev pub moved : ℕ → Bytes → ℕ → ℕ → Bytes → Bytes
moved dst from a n m i = if leb dst i && ltb i (dst + n) then from (a + (i - dst)) else m i

unfoldable pub either_copyout : Copyout → Bool → ℕ → Bytes → ℕ → ℕ → Bytes → Bool × Bytes
either_copyout copyout true dst from a n m = copyout dst (λ i. from (a + i)) n m
either_copyout copyout false dst from a n m = (true, moved dst from a n m)

-- The loop of `readi`, for at most `k` rounds: the value of `tot`, and the memory.
unfoldable pub read_rounds :
    ℕ → Copyout → Bool → ℕ → ℕ → ℕ → ℕ → Inode × Fs × Bytes → Outcome (ℕ × Inode × Fs × Bytes)
unfolding bread brelse
read_rounds zero copyout user tot n off dst (ip, s, m) = ok (tot, ip, s, m)
read_rounds (suc k) copyout user tot n off dst (ip, s, m) =
    let round = (do
      (addr, ip', s1) ← bmap (off / bsize) ip s
      if addr == 0 then ok (tot, ip', s1, m) else do
        s2 ← bread addr s1
        let c = min (n - tot) (bsize - off % bsize)
        let copied = either_copyout copyout user dst (s2.block addr) (off % bsize) c m
        s3 ← brelse addr s2
        if copied.0
            then read_rounds k copyout user (tot + c) n (off + c) (dst + c) (ip', s3, copied.1)
            else ok (2 ^ 32 - 1, ip', s3, copied.1)) in
    if ltb tot n then round else ok (tot, ip, s, m)

-- `readi`; a round that is not the last ends at the end of a block.
unfoldable pub readi :
    Copyout → Bool → ℕ → ℕ → ℕ → Inode × Fs × Bytes → Outcome (ℕ × Inode × Fs × Bytes)
unfolding read_rounds
readi copyout user dst off n (ip, s, m) =
    let n' = if ltb ip.content.size (off + n) then ip.content.size - off else n in
    if ltb ip.content.size off || ltb ((off + n) % 2 ^ 32) off
    then ok (0, ip, s, m)
    else read_rounds (n' / bsize + 2) copyout user 0 n' off dst (ip, s, m)

-- `copyin` from an address: how many bytes, the memory, the buffer and the place in it.
abbrev pub Copyin : Type 0
Copyin = ℕ → ℕ → Bytes → Bytes → ℕ → Bool × Bytes

unfoldable pub either_copyin : Copyin → Bool → ℕ → ℕ → Bytes → Bytes → ℕ → Bool × Bytes
either_copyin copyin true src n m to a = copyin src n m to a
either_copyin copyin false src n m to a = (true, moved a m src n to)

abbrev pub maxfile : ℕ
maxfile = ndirect + nindirect

-- The loop of `writei`, for at most `k` rounds: `tot` and `off` at its end.
unfoldable pub write_rounds :
    ℕ → Copyin → Bool → Bytes → ℕ → ℕ → ℕ → ℕ → Inode × Fs → Outcome (ℕ × ℕ × Inode × Fs)
unfolding bread brelse log_write
write_rounds zero copyin user m tot n off src (ip, s) = ok (tot, off, ip, s)
write_rounds (suc k) copyin user m tot n off src (ip, s) =
    let round = (do
      (addr, ip', s1) ← bmap (off / bsize) ip s
      if addr == 0 then ok (tot, off, ip', s1) else do
        s2 ← bread addr s1
        let c = min (n - tot) (bsize - off % bsize)
        let copied = either_copyin copyin user src c m (s2.block addr) (off % bsize)
        let s3 = record s2 { block = update s2.block addr copied.1 }
        if copied.0
            then (do
              s4 ← log_write addr s3
              s5 ← brelse addr s4
              write_rounds k copyin user m (tot + c) n (off + c) (src + c) (ip', s5))
            else (do s4 ← brelse addr s3; ok (tot, off, ip', s4))) in
    if ltb tot n then round else ok (tot, off, ip, s)

unfoldable pub writei : Copyin → Bool → Bytes → ℕ → ℕ → ℕ → Inode × Fs → Outcome (ℕ × Inode × Fs)
unfolding write_rounds iupdate
writei copyin user m src off n (ip, s) =
    if ltb ip.content.size off || ltb ((off + n) % 2 ^ 32) off
    then ok (2 ^ 32 - 1, ip, s)
    else if ltb (maxfile * bsize) (off + n)
    then ok (2 ^ 32 - 1, ip, s)
    else do
      (tot, off', ip1, s1) ← write_rounds (n / bsize + 2) copyin user m 0 n off src (ip, s)
      let ip2 = record ip1 {
        content = record (ip1.content) {
          size = if ltb ip1.content.size off' then off' else ip1.content.size;
        };
      }
      s2 ← iupdate ip2 s1
      ok (tot, ip2, s2)
