-- ===== src/Spinlock.antt =====
-- kernel/spinlock.c, with `struct spinlock` (kernel/spinlock.h) and the part of `struct cpu`
-- (kernel/proc.h) that it uses. The functions are those of one hart; `Spinlock.Exclusion` interleaves
-- several.
pub mod Nesting
pub mod Section
pub mod Exclusion
mod Tests
use os_project_cs.Prelude.{
  ℕ, ◌+◌, ◌-◌, Bool, true, false, not, ◌&&◌, Option, none, some, ltb, ◌==◌, if◌then◌else◌,
}
use os_project_cs.Outcome.{Message, Outcome, ok, panic, blocked, ◌>>=◌}

-- `struct cpu` without `proc` and `context`; `intr` is the bit SIE of the hart's `sstatus`.
pub record Cpu : Type 0 where
  pub id : ℕ
  pub noff : ℕ
  pub intena : Bool
  pub intr : Bool

-- `struct spinlock`; `cpu` is the hart that holds the lock, and `none` is the null pointer.
pub record Spinlock : Type 0 where
  pub locked : Bool
  pub cpu : Option ℕ

unfoldable pub initlock : Spinlock → Spinlock
initlock lk = record { locked = false; cpu = none }

abbrev pub is_cpu : Option ℕ → ℕ → Bool
is_cpu none i = false
is_cpu (some j) i = j == i

unfoldable pub holding : Cpu → Spinlock → Bool
holding c lk = lk.locked && is_cpu lk.cpu c.id

unfoldable pub push_off : Cpu → Cpu
push_off c = record c {
  noff = c.noff + 1;
  intena = if c.noff == 0 then c.intr else c.intena;
  intr = false;
}

unfoldable pub pop_off : Cpu → Outcome Cpu
pop_off c =
    if c.intr
    then panic Message.pop_off_interruptible
    else if ltb c.noff 1
    then panic Message.pop_off
    else ok (record c {
      noff = c.noff - 1;
      intr = if (c.noff - 1 == 0) && c.intena then true else c.intr;
    })

-- A lock that another hart holds makes the loop on the atomic swap spin.
unfoldable pub acquire : Cpu → Spinlock → Outcome (Cpu × Spinlock)
unfolding push_off holding
acquire c lk =
    let c' = push_off c in
    if holding c' lk
    then panic Message.acquire
    else if lk.locked
    then blocked
    else ok (c', record lk { locked = true; cpu = some c'.id })

unfoldable pub release : Cpu → Spinlock → Outcome (Cpu × Spinlock)
unfolding pop_off holding
release c lk =
    if not (holding c lk)
    then panic Message.release
    else do c' ← pop_off c; ok (c', record lk { locked = false; cpu = none })
