-- ===== src/Spinlock/Exclusion.antt =====
-- `acquire`, `release` and `holding` of kernel/spinlock.c run by any number of harts, one access to
-- the shared lock at a time, in any order. The atomic swap is one step; `holding` reads `locked`
-- and `cpu` in two.
use os_project_cs.Prelude.{ℕ, ◌≡◌, refl, ◌≢◌, Bool, true, false, ◌&&◌, none, some, arith, update}
use os_project_cs.Spinlock.{Spinlock, is_cpu}

-- Where a hart stands.
pub data Pc : Type 0 where
  outside : Pc  -- start of `acquire`
  tested : Pc  -- `holding` in `acquire` has read `locked` as set
  spinning : Pc  -- before the swap
  swapped : Pc  -- the swap found the lock free
  critical : Pc  -- after `lk->cpu = mycpu()`; start of `release`
  confirmed : Pc  -- `holding` in `release` has read `locked` as set
  leaving : Pc  -- before `lk->cpu = 0`
  cleared : Pc  -- before the store that frees the lock
  panicked : Pc

-- One access of hart `i` to the lock.
pub data Move (i : ℕ) (lk : Spinlock) : Pc → Spinlock → Pc → Type 0 where
  free_seen : lk.locked ≡ false → Move i lk outside lk spinning
  busy_seen : lk.locked ≡ true → Move i lk outside lk tested
  other_seen : is_cpu lk.cpu i ≡ false → Move i lk tested lk spinning
  self_seen : is_cpu lk.cpu i ≡ true → Move i lk tested lk panicked
  swap_busy : lk.locked ≡ true → Move i lk spinning (record lk { locked = true }) spinning
  swap_free : lk.locked ≡ false → Move i lk spinning (record lk { locked = true }) swapped
  owner : Move i lk swapped (record lk { cpu = some i }) critical
  held_seen : lk.locked ≡ true → Move i lk critical lk confirmed
  unheld_seen : lk.locked ≡ false → Move i lk critical lk panicked
  mine_seen : is_cpu lk.cpu i ≡ true → Move i lk confirmed lk leaving
  foreign_seen : is_cpu lk.cpu i ≡ false → Move i lk confirmed lk panicked
  disown : Move i lk leaving (record lk { cpu = none }) cleared
  unlock : Move i lk cleared (record lk { locked = false }) outside

pub record System : Type 0 where
  pub lock : Spinlock
  pub pc : ℕ → Pc

pub data Step (s : System) : System → Type 0 where
  pick :
      (i : ℕ) {lk : Spinlock} {p : Pc}
      → Move i s.lock (s.pc i) lk p
      → Step s (record { lock = lk; pc = update s.pc i p })

-- After `initlock`, with every hart outside.
abbrev pub start : System
start = record { lock = record { locked = false; cpu = none }; pc = λ _. outside }

pub data Reach : System → Type 0 where
  begin : Reach start
  later : {s t : System} → Reach s → Step s t → Reach t

-- Between the swap that took the lock and the store that frees it.
abbrev pub inside : Pc → Bool
inside swapped = true
inside critical = true
inside confirmed = true
inside leaving = true
inside cleared = true
inside _ = false

-- While `lk->cpu` names the hart.
abbrev pub owns : Pc → Bool
owns critical = true
owns confirmed = true
owns leaving = true
owns _ = false

pub record Inv (lk : Spinlock) (pc : ℕ → Pc) : Type 0 where
  pub taken : (i : ℕ) → inside (pc i) ≡ true → lk.locked ≡ true
  pub unique : (i j : ℕ) → inside (pc i) ≡ true → inside (pc j) ≡ true → i ≡ j
  pub recorded : (i : ℕ) → owns (pc i) ≡ is_cpu lk.cpu i
  pub calm : (i : ℕ) → pc i ≢ panicked

-- The premise of a move.
abbrev Guard : {i : ℕ} {lk lk' : Spinlock} {p p' : Pc} → Move i lk p lk' p' → Type 0
Guard {lk} (free_seen _) = lk.locked ≡ false
Guard {lk} (busy_seen _) = lk.locked ≡ true
Guard {i} {lk} (other_seen _) = is_cpu lk.cpu i ≡ false
Guard {i} {lk} (self_seen _) = is_cpu lk.cpu i ≡ true
Guard {lk} (swap_busy _) = lk.locked ≡ true
Guard {lk} (swap_free _) = lk.locked ≡ false
Guard {lk} (held_seen _) = lk.locked ≡ true
Guard {lk} (unheld_seen _) = lk.locked ≡ false
Guard {i} {lk} (mine_seen _) = is_cpu lk.cpu i ≡ true
Guard {i} {lk} (foreign_seen _) = is_cpu lk.cpu i ≡ false
Guard _ = Unit

guard : {i : ℕ} {lk lk' : Spinlock} {p p' : Pc} (mv : Move i lk p lk' p') → Guard mv
guard (free_seen g) = g
guard (busy_seen g) = g
guard (other_seen g) = g
guard (self_seen g) = g
guard (swap_busy g) = g
guard (swap_free g) = g
guard (held_seen g) = g
guard (unheld_seen g) = g
guard (mine_seen g) = g
guard (foreign_seen g) = g
guard _ = tt

module _ {lk : Spinlock} {pc : ℕ → Pc} (inv : Inv lk pc) (i : ℕ) where
  open inv use {taken, unique, recorded, calm}

  -- What the invariant says of the mover, at the name of its place.
  record Mover (p : Pc) : Type 0 where
    here : pc i ≡ p
    own : owns p ≡ is_cpu lk.cpu i
    took : inside p ≡ true → lk.locked ≡ true

  mover : Mover (pc i)
  mover = record { here = refl; own = recorded i; took = taken i }

  Move-taken :
      {p p' : Pc} {lk' : Spinlock}
      → Move i lk p lk' p'
      → Mover p
      → (j : ℕ) → inside (update pc i p' j) ≡ true
      → lk'.locked ≡ true
  Move-taken (free_seen g) f j q = ground (arith, taken j)
  Move-taken mv f j q = ground (arith, guard mv, taken j, unique i j)

  Move-unique :
      {p p' : Pc} {lk' : Spinlock}
      → Move i lk p lk' p'
      → Mover p
      → (a b : ℕ) → inside (update pc i p' a) ≡ true
      → inside (update pc i p' b) ≡ true
      → a ≡ b
  Move-unique (free_seen g) f a b qa qb = ground (arith, unique a b)
  Move-unique mv f a b qa qb =
      ground (arith, guard mv, taken a, taken b, unique a b, unique i a, unique i b)

  Move-recorded :
      {p p' : Pc} {lk' : Spinlock}
      → Move i lk p lk' p'
      → Mover p
      → (j : ℕ) → owns (update pc i p' j) ≡ is_cpu lk'.cpu j
  Move-recorded (free_seen g) f j = ground (arith, recorded j)
  Move-recorded mv f j = ground (arith, guard mv, recorded j, unique i j)

  Move-calm :
      {p p' : Pc} {lk' : Spinlock}
      → Move i lk p lk' p'
      → Mover p
      → (j : ℕ) → update pc i p' j ≢ panicked
  Move-calm (free_seen g) f j = ground (arith, calm j)
  Move-calm mv f j = ground (arith, guard mv, calm j)

  Move-Inv : {p' : Pc} {lk' : Spinlock} → Move i lk (pc i) lk' p' → Inv lk' (update pc i p')
  Move-Inv mv = record {
    taken = Move-taken mv mover;
    unique = Move-unique mv mover;
    recorded = Move-recorded mv mover;
    calm = Move-calm mv mover;
  }

Reach-Inv : {s : System} → Reach s → Inv s.lock s.pc
Reach-Inv begin = record {
  taken = λ i q. cc;
  unique = λ i j q r. cc;
  recorded = λ i. refl;
  calm = λ i q. cc;
}
Reach-Inv (later r (pick i mv)) = Move-Inv (Reach-Inv r) i mv

-- In every state that harts reach from an initialised lock, by any interleaving, two harts are
-- never between the swap that took the lock and the store that frees it.
pub mutual_exclusion :
    {s : System} → Reach s → (i j : ℕ) → inside (s.pc i) ≡ true → inside (s.pc j) ≡ true → i ≡ j
mutual_exclusion r = (Reach-Inv r).unique

-- In every reachable state no hart has panicked in `acquire` or `release`, and the two reads of
-- `holding` would tell a hart that it holds the lock exactly if it stands between
-- `lk->cpu = mycpu()` and `lk->cpu = 0`.
pub holding_exact :
    {s : System}
    → Reach s
    → (i : ℕ) → (s.pc i ≢ panicked) × ((s.lock.locked && is_cpu s.lock.cpu i) ≡ owns (s.pc i))
holding_exact r i =
    let inv = Reach-Inv r in (inv.calm i, ground (arith, inv.recorded i, inv.taken i))
