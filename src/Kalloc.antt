-- ===== src/Kalloc.antt =====
-- kernel/kalloc.c: the free list of physical pages, with the constants of kernel/riscv.h and
-- kernel/memlayout.h that it uses. A page is 512 words of 8 bytes, and a word of memory is read and
-- written at an address that is a multiple of 8.
pub mod FreeList
pub mod Alloc
pub mod Init
pub mod Ownership
mod Tests
use os_project_cs.Prelude.{
  ℕ, zero, suc, ◌+◌, ◌-◌, ◌*◌, ◌/◌, ◌%◌, ◌^◌, Bool, false, not, ◌||◌, none, ltb, leb, ◌==◌,
  if◌then◌else◌, update, fill,
}
use os_project_cs.Outcome.{Message, Outcome, ok, panic, ◌>>=◌}
use os_project_cs.Spinlock.{Cpu, Spinlock, initlock, acquire, release}

abbrev pub pgsize : ℕ
pgsize = 4096

abbrev pub phystop : ℕ
phystop = 0x80000000 + 128 * 1024 * 1024

-- `PGROUNDUP` on a `uint64`.
abbrev pub pg_round_up : ℕ → ℕ
pg_round_up sz = (sz + (pgsize - 1)) % 2 ^ 64 / pgsize * pgsize

-- `kmem`, with the hart that runs and the memory, word by word.
pub record Kmem : Type 0 where
  pub cpu : Cpu
  pub lock : Spinlock
  pub freelist : ℕ
  pub mem : ℕ → ℕ

-- `memset(pa, c, PGSIZE)`: each word holds the byte eight times.
abbrev pub memset_page : (ℕ → ℕ) → ℕ → ℕ → ℕ → ℕ
memset_page m pa c = fill m pa pgsize (c * 0x0101010101010101)

-- `kernel_end` is `end` of kernel/kernel.ld.
module _ (kernel_end : ℕ) where
  -- The test of `kfree`.
  abbrev pub refused : ℕ → Bool
  refused pa = not (pa % pgsize == 0) || ltb pa kernel_end || leb phystop pa

  unfoldable pub kfree : ℕ → Kmem → Outcome Kmem
  kfree pa s = if refused pa then panic Message.kfree else do
    let junk = memset_page s.mem pa 1
    (c, lk) ← acquire s.cpu s.lock
    let linked = update junk pa s.freelist
    (c', lk') ← release c lk
    ok (record { cpu = c'; lock = lk'; freelist = pa; mem = linked })

  -- The loop of `freerange` from `p`, for at most `n` rounds.
  unfoldable pub free_pages : ℕ → ℕ → ℕ → Kmem → Outcome Kmem
  free_pages zero p pa_end s = ok s
  free_pages (suc n) p pa_end s =
      let rest = kfree p s >>= free_pages n (p + pgsize) pa_end in
      if leb (p + pgsize) pa_end then rest else ok s

  unfoldable pub freerange : ℕ → ℕ → Kmem → Outcome Kmem
  freerange pa_start pa_end s = free_pages (suc (pa_end / pgsize)) (pg_round_up pa_start) pa_end s

  unfoldable pub kinit : Kmem → Outcome Kmem
  unfolding initlock
  kinit s = freerange kernel_end phystop (record s { lock = initlock s.lock })

-- The pointer returned, and the state.
unfoldable pub kalloc : Kmem → Outcome (ℕ × Kmem)
kalloc s = do
  (c, lk) ← acquire s.cpu s.lock
  let r = s.freelist
  let next = if r == 0 then r else s.mem r
  (c', lk') ← release c lk
  let filled = if r == 0 then s.mem else memset_page s.mem r 5
  ok (r, record { cpu = c'; lock = lk'; freelist = next; mem = filled })
