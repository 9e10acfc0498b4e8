-- ===== src/Log/Capacity.antt =====
-- How many blocks the log of kernel/log.c takes before `log_write` panics.
use os_project_cs.Prelude.{
  ℕ, zero, suc, ◌+◌, ◌-◌, ◌<◌, ◌≤◌, ◌≡◌, ◌≢◌, refl, true, List, [], ◌∷◌, length, leb, ◌==◌, update,
  arith, dec_lt, ==_ne, ==_refl, lt→leb-false, le→ltb-false,
}
use os_project_cs.Outcome.{Message, Outcome, ok, panic, ◌>>=◌}
use os_project_cs.Spinlock.Section.{
  IsFree, acquire_free, release_held, after, unlocked, after-IsFree,
}
use os_project_cs.Log.{LogHeader, Log, log_size, absorb, bpin, log_write}

-- Calls of `log_write`, one after the other.
unfoldable pub write_all : List ℕ → Log → Outcome Log
write_all [] l = ok l
write_all (b ∷ bs) l = do l' ← log_write b l; write_all bs l'

abbrev pub IsAbsent : ℕ → LogHeader → Type 0
IsAbsent b lh = (i : ℕ) → i < lh.n → lh.block i ≢ b

abbrev pub AllDiffer : ℕ → List ℕ → Type 0
AllDiffer b [] = Unit
AllDiffer b (c ∷ bs) = (b ≢ c) × AllDiffer b bs

-- Distinct blocks that the header does not name.
abbrev pub AreNew : List ℕ → LogHeader → Type 0
AreNew [] lh = Unit
AreNew (b ∷ bs) lh = IsAbsent b lh × (AllDiffer b bs × AreNew bs lh)

-- The header with a block at its end.
abbrev with_block : ℕ → LogHeader → LogHeader
with_block b lh = record { n = lh.n + 1; block = update lh.block lh.n b }

absorb_absent :
    (k i : ℕ) (block : ℕ → ℕ) (b : ℕ)
    → ((j : ℕ) → j < i + k → block j ≢ b)
    → absorb k i block b ≡ i + k
unfolding absorb
absorb_absent zero i block b absent = omega arith
absorb_absent (suc k) i block b absent =
    let differ = ==_ne (block i) b (absent i (omega arith)) in
    let rest = absorb_absent k (i + 1) block b (λ j l. absent j (omega arith)) in
    rw (differ, rest) (omega arith)

with_block-AreNew :
    (b : ℕ) (bs : List ℕ) (lh : LogHeader)
    → AllDiffer b bs
    → AreNew bs lh
    → AreNew bs (with_block b lh)
with_block-AreNew b [] lh d h = tt
with_block-AreNew b (c ∷ bs) lh (ne, d) (absent, (apart, h)) =
    (still, (apart, with_block-AreNew b bs lh d h))
  where
    still : IsAbsent c (with_block b lh)
    still i l = elim (dec_lt i lh.n) [
      | yes below ↦ rw (==_ne lh.n i (λ e. omega arith)) (absent i below)
      | no last ↦
          let e : lh.n ≡ i = omega arith in let t : (lh.n == i) ≡ true = ground arith in rw t ne
    ]

-- `log_write` of a new block where there is room.
abbrev added : ℕ → Log → Log
added b l = record l {
  cpu = after l.cpu;
  lock = unlocked;
  lh = with_block b l.lh;
  cache = bpin b l.cache;
}

log_write_new :
    (b : ℕ) (l : Log)
    → IsFree l.cpu l.lock
    → 0 < l.outstanding
    → l.size ≤ log_size
    → l.lh.n + 1 < l.size
    → IsAbsent b l.lh
    → log_write b l ≡ ok (added b l)
unfolding log_write
log_write_new b l f begun small fits absent =
    let place : absorb l.lh.n 0 l.lh.block b ≡ l.lh.n =
      omega (arith, absorb_absent l.lh.n 0 l.lh.block b (λ j u. absent j (omega arith))) in
    rw
      (
        acquire_free l.cpu l.lock f.unlocked,
        lt→leb-false log_size l.lh.n (omega arith),
        lt→leb-false (l.size - 1) l.lh.n (omega arith),
        le→ltb-false l.outstanding 1 begun,
        place,
        ==_refl l.lh.n,
        release_held l.cpu f.settled,
      )
      refl

log_write_full :
    (b : ℕ) (l : Log)
    → IsFree l.cpu l.lock
    → l.size ≤ log_size
    → l.lh.n + 1 ≡ l.size
    → log_write b l ≡ panic Message.too_big_a_transaction
unfolding log_write
log_write_full b l f small full =
    let e : leb (l.size - 1) l.lh.n ≡ true = ground arith in
    rw (acquire_free l.cpu l.lock f.unlocked, lt→leb-false log_size l.lh.n (omega arith), e) refl

-- How the calls end.
pub data Filled (bs : List ℕ) (l : Log) : Outcome Log → Type 0 where
  fits : {t : Log} → t.lh.n ≡ l.lh.n + length bs → t.lh.n < l.size → Filled bs l (ok t)
  overflows : l.size ≤ l.lh.n + length bs → Filled bs l (panic Message.too_big_a_transaction)

-- Operations that have begun log distinct new blocks, on a log of at most 30 blocks with fewer logged
-- than it has. The calls of `log_write` all succeed, one more block logged by each, exactly if fewer
-- blocks than the log has are logged at their end; otherwise one of them panics. So the 30 blocks for
-- which `begin_op` reserves space do not fit in the log of 30 blocks that mkfs makes.
pub write_all-Filled :
    (bs : List ℕ) (l : Log)
    → IsFree l.cpu l.lock
    → 0 < l.outstanding
    → l.size ≤ log_size
    → l.lh.n < l.size
    → AreNew bs l.lh
    → Filled bs l (write_all bs l)
unfolding write_all
write_all-Filled [] l f begun small room h = fits (omega arith) room
write_all-Filled (b ∷ bs) l f begun small room (absent, (differ, h)) =
    elim (dec_lt (l.lh.n + 1) l.size) [
      | no full ↦ rw (log_write_full b l f small (omega arith)) (overflows (omega arith))
      | yes free ↦ rw (log_write_new b l f begun small free absent) (
          more _ (
            write_all-Filled bs (added b l) (after-IsFree l.cpu f.settled) begun small free
              (with_block-AreNew b bs l.lh differ h)))
    ]
  where
    more : (o : Outcome Log) → Filled bs (added b l) o → Filled (b ∷ bs) l o
    more _ (fits e u) = fits (omega arith) u
    more _ (overflows u) = overflows (omega arith)
