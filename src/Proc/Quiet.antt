-- ===== src/Proc/Quiet.antt =====
-- The locks of the process table between two calls, and one slot's critical section.
use os_project_cs.Prelude.{
  ◌+◌, ◌≡◌, refl, false, List, [], ◌∷◌, inl, inr, arith, ◌==◌, Bool-cases, ap,
}
use os_project_cs.Outcome.{ok, ◌>>=◌}
use os_project_cs.Spinlock.{Cpu, Spinlock, push_off, pop_off, acquire, release}
use os_project_cs.Spinlock.Nesting.{IsSettled}
use os_project_cs.Spinlock.Section.{locked_by, unlocked, after, acquire_free, release_held}
use os_project_cs.Proc.{Proc, Kernel, locked_change, myproc}

-- Every slot's lock is free.
abbrev pub AllFree : List Proc → Type 0
AllFree [] = Unit
AllFree (p ∷ ps) = (p.lock ≡ unlocked) × AllFree ps

-- No lock of kernel/proc.c is held, and the hart is outside every critical section that it left open.
pub record Quiet (s : Kernel) : Type 0 where
  pub settled : IsSettled s.cpu
  pub slots : AllFree s.procs
  pub pids : s.pid_lock ≡ unlocked
  pub waits : s.wait_lock ≡ unlocked

-- The hart is where it was, up to the interrupt state that it saved.
pub record Back (c c' : Cpu) : Type 0 where
  pub settled : IsSettled c'
  pub level : c'.noff ≡ c.noff
  pub same : c'.intr ≡ c.intr
  pub hart : c'.id ≡ c.id

pub Back-same : (c : Cpu) → IsSettled c → Back c c
Back-same c h = record { settled = h; level = refl; same = refl; hart = refl }

pub Back-once : (c : Cpu) → IsSettled c → Back c (after c)
Back-once c h = record { settled = h; level = refl; same = refl; hart = refl }

pub Back-after : {c c' : Cpu} → Back (after c) c' → Back c c'
Back-after b = record { settled = b.settled; level = b.level; same = b.same; hart = b.hart }

pub after-after : (c : Cpu) → after (after c) ≡ after c
after-after c = elim (Bool-cases (c.noff == 0)) [ inl z ↦ rw z refl | inr z ↦ rw z refl ]

pub push_off-after : (c : Cpu) → push_off (after c) ≡ push_off c
unfolding push_off
push_off-after c = elim (Bool-cases (c.noff == 0)) [ inl z ↦ rw z refl | inr z ↦ rw z refl ]

pub myproc_lem : (c : Cpu) → IsSettled c → myproc c ≡ ok (after c)
unfolding myproc push_off pop_off
myproc_lem c h = ground arith

pub acquire_slot :
    (c : Cpu) (lk : Spinlock) → lk ≡ unlocked → acquire c lk ≡ ok (push_off c, locked_by c)
acquire_slot c lk e = acquire_free c lk (ap (λ l. l.locked) e)

pub section :
    (c : Cpu) (lk : Spinlock)
    → IsSettled c
    → lk ≡ unlocked
    → (do (c', lk') ← acquire c lk; release c' lk') ≡ ok (after c, unlocked)
section c lk h e = rw (acquire_slot c lk e) (release_held c h)

pub locked_change_lem :
    (f : Proc → Proc) (c : Cpu) (p : Proc)
    → IsSettled c
    → p.lock ≡ unlocked
    → locked_change f c p ≡ ok (after c, record (f p) { lock = unlocked })
locked_change_lem f c p h e = rw (acquire_slot c p.lock e, release_held c h)

pub after-push_off : (c : Cpu) → after (push_off c) ≡ push_off c
unfolding push_off
after-push_off c = let z : (c.noff + 1 == 0) ≡ false = ground arith in rw z refl
