-- ===== src/Log/Absorb.antt =====
-- How `log_write` of kernel/log.c records a changed block, so that a commit finds it.
use os_project_cs.Prelude.{
  ℕ, zero, suc, ◌+◌, ◌-◌, ◌≤◌, ◌<◌, ◌≡◌, ◌⊎◌, inl, inr, refl, true, false, ◌||◌, arith, ◌==◌,
  if◌then◌else◌, ℕ_discrete, update, lt→leb-false, le→ltb-false, Bool-cases, ==_ne,
}
use os_project_cs.Outcome.{ok}
use os_project_cs.Spinlock.Section.{IsFree, acquire_free, release_held, after, unlocked}
use os_project_cs.Log.{Block, Cache, LogHeader, Log, log_size, set_data, absorb, bpin, log_write}
use os_project_cs.Log.Replay.{hits, IsHome}
use os_project_cs.Log.Durable.{hits-ext}
use os_project_cs.Log.Commit.{IsReady}

-- The loop finds the first place of the block, or the end if it is not logged yet.
record Found (k i : ℕ) (block : ℕ → ℕ) (b r : ℕ) : Type 0 where
  low : i ≤ r
  high : r ≤ i + k
  there : r < i + k → block r ≡ b
  hit : hits block k i b ≡ (if r == i + k then false else true)

absorb-Found : (k i : ℕ) (block : ℕ → ℕ) (b : ℕ) → Found k i block b (absorb k i block b)
unfolding absorb
absorb-Found zero i block b = record {
  low = omega arith;
  high = omega arith;
  there = λ u. absurd (omega arith);
  hit = ground arith;
}
absorb-Found (suc k) i block b =
    let f = absorb-Found k (i + 1) block b in
    let l = f.low in
    let h = f.high in
    record {
      low = ground arith;
      high = ground arith;
      there = ground (arith, f.there);
      hit = ground (arith, f.hit);
    }

hits-snoc :
    (blk : ℕ → ℕ) (k t b : ℕ) → hits blk (suc k) t b ≡ (hits blk k t b || (blk (t + k) == b))
hits-snoc blk zero t b = let e : t + 0 ≡ t = omega arith in rw e (ground arith)
hits-snoc blk (suc k) t b =
    let e : t + 1 + k ≡ t + suc k = omega arith in
    let h : hits blk (suc k) (t + 1) b ≡ (hits blk k (t + 1) b || (blk (t + suc k) == b)) =
      rw e at (hits-snoc blk k (t + 1) b) in
    ground (arith, h)

-- The transaction after the call.
abbrev slot : LogHeader → ℕ → ℕ
slot lh b = absorb lh.n 0 lh.block b

abbrev recorded : LogHeader → ℕ → LogHeader
recorded lh b = record {
  n = if slot lh b == lh.n then lh.n + 1 else lh.n;
  block = update lh.block (slot lh b) b;
}

recorded-hits :
    (lh : LogHeader) (b j : ℕ)
    → (hits lh.block lh.n 0 j ≡ true) ⊎ (b ≡ j)
    → hits (recorded lh b).block (recorded lh b).n 0 j ≡ true
recorded-hits lh b j h =
    let f = absorb-Found lh.n 0 lh.block b in
    let q = f.high in
    elim (Bool-cases (slot lh b == lh.n)) [
      | inl new ↦
          let kept : hits (update lh.block (slot lh b) b) lh.n 0 j ≡ hits lh.block lh.n 0 j =
            hits-ext _ lh.block lh.n 0 j (λ i l u. rw (==_ne (slot lh b) i (ground arith))) in
          rw new (
            let e : lh.n + 1 ≡ suc lh.n = omega arith in
            rw (e, hits-snoc (update lh.block (slot lh b) b) lh.n 0 j, kept) (ground arith))
      | inr old ↦
          let same : hits (update lh.block (slot lh b) b) lh.n 0 j ≡ hits lh.block lh.n 0 j =
            hits-ext _ lh.block lh.n 0 j (λ i l u. ground (arith, f.there)) in
          rw (old, same) (ground (arith, f.hit))
    ]

recorded-IsHome :
    (start size : ℕ) (lh : LogHeader) (b i : ℕ)
    → IsHome start size b
    → (i < lh.n → IsHome start size (lh.block i))
    → i < (recorded lh b).n
    → IsHome start size ((recorded lh b).block i)
recorded-IsHome start size lh b i home old u =
    let f = absorb-Found lh.n 0 lh.block b in let q = f.high in ground (arith, old)

-- The cache after the call.
abbrev pinned : ℕ → Block → Log → Cache
pinned b v l = if slot l.lh b == l.lh.n then bpin b (set_data b v l.cache) else set_data b v l.cache

still_clean :
    (b : ℕ) (v : Block) (l : Log) (j : ℕ)
    → (hits l.lh.block l.lh.n 0 j ≡ true) ⊎ (l.cache.disk j ≡ l.cache.buf j)
    → (hits (recorded l.lh b).block (recorded l.lh b).n 0 j ≡ true)
      ⊎ ((pinned b v l).disk j ≡ (pinned b v l).buf j)
unfolding bpin
still_clean b v l j (inl hit) = inl (recorded-hits l.lh b j (inl hit))
still_clean b v l j (inr same) = elim (ℕ_discrete b j) [
  | yes here ↦ inl (recorded-hits l.lh b j (inr here))
  | no other ↦ inr (ground arith)
]

-- What a process leaves that changes a block and hands it to the log.
pub record Changed (b : ℕ) (v : Block) (l : Log) : Type 0 where
  pub next : Log
  pub runs : log_write b (record l { cache = set_data b v l.cache }) ≡ ok next
  pub ready : IsReady next.start next.size next.lh next.cache
  pub logged : hits next.lh.block next.lh.n 0 b ≡ true
  pub disk : next.cache.disk ≡ l.cache.disk
  pub buf : (j : ℕ) → next.cache.buf j ≡ (if b == j then v else l.cache.buf j)

-- A running operation that changes a block outside the log and calls `log_write`, while there is
-- room, leaves a log that a commit can take: the changed block belongs to the transaction, and every block where
-- cache and disk differ. Nothing reaches the disk yet, and processes see the change at once.
pub log_write-Changed :
    (b : ℕ) (v : Block) (l : Log)
    → IsFree l.cpu l.lock
    → IsReady l.start l.size l.lh l.cache
    → IsHome l.start l.size b
    → 0 < l.outstanding
    → l.lh.n < log_size
    → l.lh.n + 1 < l.size
    → Changed b v l
unfolding log_write bpin
log_write-Changed b v l f ready home begun room fits = record {
  next = record l {
    cpu = after l.cpu;
    lock = unlocked;
    lh = recorded l.lh b;
    cache = pinned b v l;
  };
  runs = rw (
    acquire_free l.cpu l.lock f.unlocked,
    lt→leb-false log_size l.lh.n room,
    lt→leb-false (l.size - 1) l.lh.n (omega arith),
    le→ltb-false l.outstanding 1 begun,
    release_held l.cpu f.settled,
  );
  ready = record {
    fits = ground arith;
    homes = λ i u. recorded-IsHome l.start l.size l.lh b i home (ready.homes i) u;
    empty = elim (Bool-cases (slot l.lh b == l.lh.n)) [
      | inl new ↦ rw new (ready.empty)
      | inr old ↦ rw old (ready.empty)
    ];
    clean = λ j h. still_clean b v l j (ready.clean j h);
  };
  logged = recorded-hits l.lh b b (inr refl);
  disk = ground arith;
  buf = λ j. ground arith;
}
