-- ===== src/Spinlock/Section.antt =====
-- A critical section of one hart: `acquire` on a free lock, and the `release` that ends it.
use os_project_cs.Prelude.{◌≡◌, refl, true, false, none, some, arith, ◌==◌, if◌then◌else◌}
use os_project_cs.Outcome.{ok, ◌>>=◌}
use os_project_cs.Spinlock.{Cpu, Spinlock, push_off, acquire, release}
use os_project_cs.Spinlock.Nesting.{IsSettled}

-- A hart outside the section, and the lock free.
pub record IsFree (c : Cpu) (lk : Spinlock) : Type 0 where
  pub settled : IsSettled c
  pub unlocked : lk.locked ≡ false
  pub unowned : lk.cpu ≡ none

-- The hart and the lock inside the section.
abbrev pub locked_by : Cpu → Spinlock
locked_by c = record { locked = true; cpu = some c.id }

abbrev pub unlocked : Spinlock
unlocked = record { locked = false; cpu = none }

-- The hart after the section: `intena` is what the outermost `push_off` saved.
abbrev pub after : Cpu → Cpu
after c = record c { intena = if c.noff == 0 then c.intr else c.intena }

pub acquire_free :
    (c : Cpu) (lk : Spinlock) → lk.locked ≡ false → acquire c lk ≡ ok (push_off c, locked_by c)
unfolding acquire
acquire_free c lk h = ground arith

pub release_held :
    (c : Cpu) → IsSettled c → release (push_off c) (locked_by c) ≡ ok (after c, unlocked)
unfolding release push_off
release_held c h = ground arith

pub record Balanced (c : Cpu) (lk : Spinlock) : Type 0 where
  pub last : Cpu
  pub runs : (do (c', lk') ← acquire c lk; release c' lk') ≡ ok (last, unlocked)
  pub free : IsFree last unlocked
  pub level : last.noff ≡ c.noff
  pub same : last.intr ≡ c.intr

-- An `acquire` of a free lock followed by its `release` succeeds, gives the lock back free, and
-- leaves the depth and the interrupt state of the hart as they were.
pub acquire-release : (c : Cpu) (lk : Spinlock) → IsFree c lk → Balanced c lk
unfolding push_off
acquire-release c lk f = record {
  last = after c;
  runs = rw (acquire_free c lk f.unlocked) (release_held c f.settled);
  free = record { settled = ground arith; unlocked = refl; unowned = refl };
  level = refl;
  same = refl;
}

pub after-IsFree : (c : Cpu) → IsSettled c → IsFree (after c) unlocked
after-IsFree c h = record { settled = h; unlocked = refl; unowned = refl }
