-- ===== src/Proc/Wait/Ends.antt =====
-- How a pass of `wait` (kernel/proc.c) ends, and what it leaves.
use os_project_cs.Prelude.{
  ℕ, zero, suc, ◌≡◌, refl, ◌∙◌, Bool, true, false, List, [], ◌∷◌, ◌++◌, some, inl, inr, Bool-cases,
  sym, ap, get_elem?, set, set_same,
}
use mathlib.Core.Option.{some-injective, none-ne-some}
use os_project_cs.Outcome.{Outcome, ok}
use os_project_cs.Spinlock.{push_off}
use os_project_cs.Spinlock.Nesting.{IsSettled, push_off_step}
use os_project_cs.Spinlock.Section.{unlocked, locked_by, after, release_held}
use os_project_cs.Proc.{Proc, Kernel, sleeping, Chan, Freed}
use os_project_cs.Proc.Quiet.{AllFree, Quiet, acquire_slot, after-push_off}
use os_project_cs.Proc.Wait.{
  Scan, reaped, not_copied, no_zombie, wait_rounds, wait, WaitEnd, returned, minus_one, asleep,
  killed, at_slot-some,
}
use os_project_cs.Proc.Wait.Reap.{Scanned, keeps, nothing, NoneExited, any_child, pass}
use os_project_cs.Proc.Wait.Switch.{sleep_lem}

pub data Waited (me : ℕ) (copied : Bool) (s : Kernel) (p : Proc)
    : Outcome (WaitEnd × Kernel) → Type 0 where
  reaps_child :
      {pid : ℕ} {ps : List Proc} {fs : List Freed}
      → Scanned me copied s.procs (reaped pid) ps fs
      → Waited me copied s p
          (ok (returned pid, record s { cpu = after s.cpu; procs = ps; freed = fs ++ s.freed }))
  cannot_copy :
      Scanned me copied s.procs not_copied s.procs []
      → Waited me copied s p (ok (minus_one, record s { cpu = after s.cpu }))
  no_child :
      any_child me s.procs ≡ false
      → Waited me copied s p (ok (minus_one, record s { cpu = after s.cpu }))
  was_killed :
      NoneExited me s.procs
      → p.killed ≡ true
      → Waited me copied s p (ok (minus_one, record s { cpu = after s.cpu }))
  sleeps :
      NoneExited me s.procs
      → any_child me s.procs ≡ true
      → p.killed ≡ false
      → Waited me copied s p (
          ok (
            asleep,
            record s {
              cpu = push_off s.cpu;
              procs =
                  set s.procs me
                    (record p { lock = locked_by s.cpu; chan = Chan.slot me; state = sleeping });
            },
          ))

pub AllFree-at :
    (ps : List Proc) (i : ℕ) (p : Proc) → AllFree ps → get_elem? ps i ≡ some p → p.lock ≡ unlocked
AllFree-at [] i p f e = absurd (none-ne-some _ e)
AllFree-at (q ∷ ps) zero p (u, f) e = ap (λ r. r.lock) (some-injective _ _ (sym e)) ∙ u
AllFree-at (q ∷ ps) (suc i) p (u, f) e = AllFree-at ps i p f e

killed_lem :
    (i : ℕ) (s : Kernel) (p : Proc)
    → get_elem? s.procs i ≡ some p
    → p.lock ≡ unlocked
    → IsSettled s.cpu
    → killed i s ≡ ok (p.killed, record s { cpu = after s.cpu })
unfolding killed
killed_lem i s p at free h =
    at_slot-some s i p _ at
    ∙ (let same = set_same s.procs i p at in
        rw (acquire_slot s.cpu p.lock free, release_held s.cpu h, ← free, same) refl)

keeps_lem :
    {me : ℕ} {copied : Bool} {qs ps : List Proc} {fs : List Freed}
    → Scanned me copied qs not_copied ps fs
    → (ps ≡ qs) × (fs ≡ [])
keeps_lem (keeps before p rest n x c) = (refl, refl)

nothing_lem :
    {me : ℕ} {copied kids : Bool} {qs ps : List Proc} {fs : List Freed}
    → Scanned me copied qs (no_zombie kids) ps fs
    → (ps ≡ qs) × (fs ≡ []) × NoneExited me qs × (any_child me qs ≡ kids)
nothing_lem (nothing ps n) = (refl, refl, n, refl)

module _ (me : ℕ) (copied : Bool) (s : Kernel) (p : Proc) (q : Quiet s) (level : s.cpu.noff ≡ 0)
    (at : get_elem? s.procs me ≡ some p) where
  -- `s` with `wait_lock` held.
  abbrev held : Kernel
  held = record s { cpu = push_off s.cpu; wait_lock = locked_by s.cpu }

  after_scan :
      (e : Scan) (ps : List Proc) (fs : List Freed)
      → wait_rounds me copied (push_off s.cpu) s.procs ≡ ok (e, push_off s.cpu, ps, fs)
      → Scanned me copied s.procs e ps fs
      → Waited me copied s p (wait me copied s)
  unfolding wait
  after_scan (reaped pid) ps fs runs scanned =
      rw (acquire_slot s.cpu s.wait_lock q.waits, runs, release_held s.cpu q.settled, ← q.waits)
        (reaps_child scanned)
  after_scan not_copied ps fs runs scanned =
      let k = keeps_lem scanned in
      let kept : Scanned me copied s.procs not_copied s.procs [] = rw (k.0, k.1) at scanned in
      rw
        (
          acquire_slot s.cpu s.wait_lock q.waits,
          runs,
          k.0,
          k.1,
          release_held s.cpu q.settled,
          ← q.waits,
        )
        (cannot_copy kept)
  after_scan (no_zombie kids) ps fs runs scanned =
      let k = nothing_lem scanned in
      let free = AllFree-at s.procs me p q.slots at in
      let looked : killed me held ≡ ok (p.killed, held) =
        killed_lem me held p at free (push_off_step s.cpu).settled
        ∙ ap (λ c. ok (p.killed, record held { cpu = c })) (after-push_off s.cpu) in
      let slept = sleep_lem me (Chan.slot me) held s.cpu p at free q.settled level refl in
      elim (Bool-cases kids) [
        | inl some_kids ↦ elim (Bool-cases p.killed) [
          | inl dead ↦
              rw
                (
                  acquire_slot s.cpu s.wait_lock q.waits,
                  runs,
                  k.0,
                  k.1,
                  some_kids,
                  looked ∙ ap (λ b. ok (b, held)) dead,
                  release_held s.cpu q.settled,
                  ← q.waits,
                )
                (was_killed k.2 dead)
          | inr alive ↦
              rw
                (
                  acquire_slot s.cpu s.wait_lock q.waits,
                  runs,
                  k.0,
                  k.1,
                  some_kids,
                  looked ∙ ap (λ b. ok (b, held)) alive,
                  slept,
                  ← q.waits,
                )
                (sleeps k.2 (k.3 ∙ some_kids) alive)
        ]
        | inr no_kids ↦
            rw
              (
                acquire_slot s.cpu s.wait_lock q.waits,
                runs,
                k.0,
                k.1,
                no_kids,
                release_held s.cpu q.settled,
                ← q.waits,
              )
              (no_child (k.3 ∙ no_kids))
      ]

-- With every lock free and no other section open, a pass of `wait` reaps the first exited child and
-- returns its pid, or returns -1 if the child's status cannot be copied out, if there is no child, or
-- if the process has been killed. Otherwise the process sleeps on its own slot, with its lock held and
-- no other; it never panics in `sched`. Nothing else changes.
pub wait-Waited :
    (me : ℕ) (copied : Bool) (s : Kernel) (p : Proc)
    → Quiet s
    → s.cpu.noff ≡ 0
    → get_elem? s.procs me ≡ some p
    → Waited me copied s p (wait me copied s)
wait-Waited me copied s p q level at =
    let r =
      pass me copied (push_off s.cpu) s.procs (push_off_step s.cpu).settled (after-push_off s.cpu)
        q.slots in
    after_scan me copied s p q level at r.found r.procs r.freed r.runs r.scanned
