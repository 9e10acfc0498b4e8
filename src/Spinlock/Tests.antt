-- ===== src/Spinlock/Tests.antt =====
-- Runs of kernel/spinlock.c at concrete states.
use os_project_cs.Prelude.{ℕ, ◌≡◌, refl, true, false, none, some, update}
use os_project_cs.Outcome.{Message, panic, blocked}
use os_project_cs.Spinlock.{Cpu, Spinlock, pop_off, acquire, release}
use os_project_cs.Spinlock.Exclusion.{Pc, Move, System, pick, Reach, begin, later, mutual_exclusion}

abbrev hart : Cpu
hart = record { id = 3; noff = 0; intena = false; intr = true }

abbrev open_lock : Spinlock
open_lock = record { locked = false; cpu = none }

acquire_twice : acquire hart (record { locked = true; cpu = some 3 }) ≡ panic Message.acquire
unfolding acquire
acquire_twice = refl

acquire_spins : acquire hart (record { locked = true; cpu = some 1 }) ≡ blocked
unfolding acquire
acquire_spins = refl

release_unheld : release hart open_lock ≡ panic Message.release
unfolding release
release_unheld = refl

pop_off_unmatched : pop_off (record hart { intr = false }) ≡ panic Message.pop_off
unfolding pop_off
pop_off_unmatched = refl

-- Hart 0 takes the lock; hart 1 finds it taken and spins.
abbrev contended : System
contended = record {
  lock = record { locked = true; cpu = some 0 };
  pc =
      update (update (update (update (λ i. Pc.outside) 0 Pc.spinning) 0 Pc.swapped) 0 Pc.critical) 1
        Pc.tested;
}

contended-Reach : Reach contended
contended-Reach =
    later
      (later (later (later begin (pick 0 (Move.free_seen refl))) (pick 0 (Move.swap_free refl)))
        (pick 0 Move.owner))
      (pick 1 (Move.busy_seen refl))

mutual_exclusion_example : ◌≡◌ {A = ℕ} 0 0
mutual_exclusion_example = mutual_exclusion {s = contended} contended-Reach 0 0 refl refl
