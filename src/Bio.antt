-- ===== src/Bio.antt =====
-- The buffer cache of kernel/bio.c as a ring of buffers through memory. Buffers are named by their
-- place in `bcache.buf`, and `nbuf` names `bcache.head`.
pub mod Ring
pub mod Lru
pub mod Init
pub mod Get
pub mod Unique
mod Tests
use os_project_cs.Prelude.{
  ℕ, zero, suc, ◌+◌, ◌-◌, ◌*◌, ◌%◌, ◌^◌, Bool, true, false, not, ◌&&◌, if◌then◌else◌, ◌==◌, Option,
  none, some, update,
}
use os_project_cs.Outcome.{Outcome, ok, panic, Message, ◌>>=◌}
use os_project_cs.Spinlock.{Cpu, Spinlock, initlock, acquire, release}
use os_project_cs.Log.{max_op_blocks}

abbrev pub nbuf : ℕ
nbuf = max_op_blocks * 3

-- `bcache` with the fields of `struct buf` (kernel/buf.h) by buffer, and the hart that runs; a
-- buffer's data and its sleep lock are left to Log and Sleeplock.
pub record Bcache : Type 0 where
  pub cpu : Cpu
  pub lock : Spinlock
  pub valid : ℕ → Bool
  pub dev : ℕ → ℕ
  pub blockno : ℕ → ℕ
  pub refcnt : ℕ → ℕ
  pub prev : ℕ → ℕ
  pub next : ℕ → ℕ

-- `b->next = head.next; b->prev = &head; head.next->prev = b; head.next = b;`
unfoldable pub push_front : ℕ → Bcache → Bcache
push_front b s =
    let next1 = update s.next b (s.next nbuf) in
    let prev1 = update s.prev b nbuf in
    let prev2 = update prev1 (next1 nbuf) b in record s { next = update next1 nbuf b; prev = prev2 }

-- `b->next->prev = b->prev; b->prev->next = b->next;`
unfoldable pub unlink : ℕ → Bcache → Bcache
unlink b s =
    let prev1 = update s.prev (s.next b) (s.prev b) in
    record s { prev = prev1; next = update s.next (prev1 b) (s.next b) }

-- The loop of `binit` from buffer `b` on, with `k` buffers left.
unfoldable pub init_rounds : ℕ → ℕ → Bcache → Bcache
unfolding push_front
init_rounds zero b s = s
init_rounds (suc k) b s = init_rounds k (b + 1) (push_front b s)

-- `binit`; the sleep lock of each buffer is set up by `initsleeplock`.
unfoldable pub binit : Bcache → Bcache
unfolding init_rounds initlock
binit s = init_rounds nbuf 0 (record s {
  lock = initlock s.lock;
  prev = update s.prev nbuf nbuf;
  next = update s.next nbuf nbuf;
})

-- The first loop of `bget`, forwards from `b`, for at most `fuel` buffers.
unfoldable pub find_cached : ℕ → ℕ → ℕ → ℕ → Bcache → Option ℕ
find_cached zero b d n s = none
find_cached (suc fuel) b d n s =
    let rest = find_cached fuel (s.next b) d n s in
    if b == nbuf then none else if (s.dev b == d) && (s.blockno b == n) then some b else rest

-- The second loop of `bget`, backwards from `b`.
unfoldable pub find_lru : ℕ → ℕ → Bcache → Option ℕ
find_lru zero b s = none
find_lru (suc fuel) b s =
    let rest = find_lru fuel (s.prev b) s in
    if b == nbuf then none else if s.refcnt b == 0 then some b else rest

-- `bget` up to `acquiresleep`, with `refcnt` a `uint`.
unfoldable pub bget : ℕ → ℕ → Bcache → Outcome (ℕ × Bcache)
unfolding find_cached find_lru
bget d n s = do
  (c, lk) ← acquire s.cpu s.lock
  (b, s') ← (elim (find_cached (suc nbuf) (s.next nbuf) d n s) [
    | some b ↦ ok (b, record s { refcnt = update s.refcnt b ((s.refcnt b + 1) % 2 ^ 32) })
    | none ↦ elim (find_lru (suc nbuf) (s.prev nbuf) s) [
      | none ↦ panic Message.no_buffers
      | some b ↦ ok (
        b,
        record s {
          dev = update s.dev b d;
          blockno = update s.blockno b n;
          valid = update s.valid b false;
          refcnt = update s.refcnt b 1;
        },
      )
    ]
  ])
  (c', lk') ← release c lk
  ok (b, record s' { cpu = c'; lock = lk' })

-- `brelse` after `releasesleep`: what it does under the lock of the cache.
unfoldable pub brelse : ℕ → Bcache → Outcome Bcache
unfolding push_front unlink
brelse b s = do
  (c, lk) ← acquire s.cpu s.lock
  let less = record s { refcnt = update s.refcnt b ((s.refcnt b + 2 ^ 32 - 1) % 2 ^ 32) }
  let s' = if less.refcnt b == 0 then push_front b (unlink b less) else less
  (c', lk') ← release c lk
  ok (record s' { cpu = c'; lock = lk' })
