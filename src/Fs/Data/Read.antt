-- ===== src/Fs/Data/Read.antt =====
-- `readi` of kernel/fs.c against the contents of a file, byte by byte.
use os_project_cs.Prelude.{
  ℕ, suc, ◌+◌, ◌-◌, ◌*◌, ◌/◌, ◌%◌, ◌<◌, ◌≤◌, ◌≡◌, refl, fun_ext, Bool, true, ◌&&◌, ltb, leb,
  if◌then◌else◌, arith, dec_lt, min,
}
use os_project_cs.Log.{bsize}
use os_project_cs.Fs.{Fs}
use os_project_cs.Fs.Inode.{Inode, Bytes}
use os_project_cs.Fs.Data.{Copyout, moved, either_copyout}
use os_project_cs.Fs.Data.Bmap.{block_of}

-- Byte `o` of the file.
abbrev pub file_byte : (ℕ → ℕ → ℕ) → Inode → ℕ → ℕ
file_byte block ip o = block (block_of block ip (o / bsize)) (o % bsize)

-- `m` with the `n` bytes of `f` from `off` on put at `dst`.
abbrev pub delivered : (ℕ → ℕ) → ℕ → ℕ → ℕ → Bytes → Bytes
delivered f off n dst m i = if leb dst i && ltb i (dst + n) then f (off + (i - dst)) else m i

-- The copy out succeeds at every address.
abbrev pub Succeeds : Copyout → Bool → Type 0
Succeeds copyout user =
    (dst a n : ℕ) (from m : Bytes)
    → either_copyout copyout user dst from a n m ≡ (true, moved dst from a n m)

-- How much a round copies.
abbrev pub chunk : ℕ → ℕ → ℕ
chunk r off = min r (bsize - off % bsize)

pub chunk_within :
    (r off j : ℕ)
    → j < chunk r off
    → ((off + j) / bsize ≡ off / bsize) × ((off + j) % bsize ≡ off % bsize + j)
chunk_within r off j l = (omega arith, omega arith)

pub file_byte_within :
    (block : ℕ → ℕ → ℕ) (ip : Inode) (r off j b : ℕ)
    → j < chunk r off
    → block_of block ip (off / bsize) ≡ b
    → file_byte block ip (off + j) ≡ block b (off % bsize + j)
file_byte_within block ip r off j b l e = let w = chunk_within r off j l in rw (w.0, w.1, e) refl

pub fuel_left :
    (k r off n tot : ℕ)
    → n - tot ≤ bsize * suc k - off % bsize
    → tot < n
    → n - (tot + chunk (n - tot) off) ≤ bsize * k - (off + chunk (n - tot) off) % bsize
fuel_left k r off n tot fuel more = omega arith

-- The first `c` bytes moved, and then the bytes after them.
pub delivered-moved :
    (f : ℕ → ℕ) (off r dst c a : ℕ) (from m : Bytes)
    → c ≤ r
    → ((j : ℕ) → j < c → f (off + j) ≡ from (a + j))
    → delivered f (off + c) (r - c) (dst + c) (moved dst from a c m) ≡ delivered f off r dst m
delivered-moved f off r dst c a from m le same = fun_ext (λ i. at i)
  where
    at :
        (i : ℕ)
        → delivered f (off + c) (r - c) (dst + c) (moved dst from a c m) i
          ≡ delivered f off r dst m i
    at i = elim (dec_lt i dst) [
      | yes before ↦ ground arith
      | no reached ↦ elim (dec_lt i (dst + c)) [
        | yes inside ↦
            let e : f (off + (i - dst)) ≡ from (a + (i - dst)) = same (i - dst) (omega arith) in
            ground arith
        | no after ↦
            let e : off + c + (i - (dst + c)) ≡ off + (i - dst) = omega arith in rw e (ground arith)
      ]
    ]

-- No bytes.
pub delivered_none : (f : ℕ → ℕ) (off n dst : ℕ) (m : Bytes) → n ≡ 0 → delivered f off n dst m ≡ m
delivered_none f off n dst m e = fun_ext (λ i. ground arith)

-- How many bytes `readi` reads.
abbrev pub read_count : Inode → ℕ → ℕ → ℕ
read_count ip off n = min n (ip.content.size - off)
