-- ===== src/Proc/Exit/Orphans.antt =====
-- `reparent` of kernel/proc.c: whose parent changes, and who is woken.
use os_project_cs.Prelude.{
  ℕ, zero, suc, ◌+◌, ◌<◌, ◌≤◌, ◌≡◌, refl, ◌∙◌, true, false, List, [], ◌∷◌, some, leb, get_elem?,
  length, arith, ◌⊎◌, inl, inr, Bool-cases, length-set, get_elem?-bound, lt→leb-false,
}
use os_project_cs.Outcome.{ok}
use os_project_cs.Spinlock.{is_cpu}
use os_project_cs.Spinlock.Nesting.{IsSettled}
use os_project_cs.Spinlock.Section.{after}
use os_project_cs.Proc.{Proc, Kernel, slot}
use os_project_cs.Proc.Quiet.{AllFree}
use os_project_cs.Proc.Wakeup.{wakeup-Woke}
use os_project_cs.Proc.Wait.{at_slot-some}
use os_project_cs.Proc.Exit.{adopted, reparent_rounds, reparent}
use os_project_cs.Proc.Exit.Follows.{Follows-refl}
use os_project_cs.Proc.Exit.Adopted.{
  Adopted, AllFree-write, round_lem, Adopted-child, Adopted-other,
}

-- How the loop ends.
record Rounds (k j me : ℕ) (s : Kernel) : Type 0 where
  procs : List Proc
  runs : reparent_rounds k j me s ≡ ok (record s { procs = procs })
  adopted : Adopted me j s procs

Adopted-end :
    (me j : ℕ) (s : Kernel) → AllFree s.procs → length s.procs ≤ j → Adopted me j s s.procs
Adopted-end me j s free end = record {
  free = free;
  same_slots = refl;
  each = λ i q there.
      let l = get_elem?-bound s.procs i there in
      let late : leb j i ≡ false = lt→leb-false j i (omega arith) in
      (q, there, Follows-refl q, rw late refl);
  init_awake =
      λ i p q le old kid other there. let l = get_elem?-bound s.procs i old in absurd (omega arith);
}

pub slot_there : (ps : List Proc) (j : ℕ) → j < length ps → (p : Proc) × (get_elem? ps j ≡ some p)
slot_there [] j l = absurd (omega arith)
slot_there (p ∷ ps) zero l = (p, refl)
slot_there (p ∷ ps) (suc j) l = slot_there ps j (omega arith)

rounds :
    (k j me : ℕ) (s : Kernel)
    → IsSettled s.cpu
    → after s.cpu ≡ s.cpu
    → AllFree s.procs
    → length s.procs ≡ j + k
    → Rounds k j me s
unfolding reparent_rounds
rounds zero j me s settled inside free len = record {
  procs = s.procs;
  runs = refl;
  adopted = Adopted-end me j s free (omega arith);
}
rounds (suc k) j me s settled inside free len =
    let there = slot_there s.procs j (omega arith) in
    go (there.0) (there.1) (Bool-cases (is_cpu (there.0).parent me))
      (λ t f l. rounds k (j + 1) me (record s { procs = t }) settled inside f l)
  where
    go :
        (pp : Proc)
        → get_elem? s.procs j ≡ some pp
        → (is_cpu pp.parent me ≡ true) ⊎ (is_cpu pp.parent me ≡ false)
        → ((t : List Proc)
            → AllFree t
            → length t ≡ j + 1 + k
            → Rounds k (j + 1) me (record s { procs = t }))
        → Rounds (suc k) j me s
    go pp at (inr other) ih =
        let r = ih s.procs free (omega arith) in
        record {
          procs = r.procs;
          runs = at_slot-some s j pp _ at ∙ rw (other, r.runs) refl;
          adopted = Adopted-other me j s pp r.procs at other r.adopted;
        }
    go pp at (inl child) ih =
        let new = record pp { parent = some s.initproc } in
        let w =
          wakeup-Woke (slot s.initproc) (adopted j pp s) settled
            (AllFree-write s.procs j pp new free at refl) in
        let n = length-set s.procs j new in
        let slots : length w.procs ≡ length s.procs = w.same_slots ∙ n in
        let r = ih w.procs w.free (slots ∙ len ∙ omega arith) in
        let back = w.exact inside in
        record {
          procs = r.procs;
          runs = at_slot-some s j pp _ at ∙ rw (child, w.runs, back, r.runs) refl;
          adopted =
              Adopted-child me j s pp w.procs r.procs at child slots
                (round_lem j s pp w.procs at w.each) r.adopted;
        }

-- What `reparent` does.
pub record Reparented (me : ℕ) (s : Kernel) : Type 0 where
  pub procs : List Proc
  pub runs : reparent me s ≡ ok (record s { procs = procs })
  pub adopted : Adopted me 0 s procs

-- Inside a critical section, and with every slot's lock free, `reparent` gives exactly the children of
-- the process to init and wakes init if there are any; the only other changes are that processes that
-- sleep on init's address become runnable.
pub reparent-Reparented :
    (me : ℕ) (s : Kernel)
    → IsSettled s.cpu
    → after s.cpu ≡ s.cpu
    → AllFree s.procs
    → Reparented me s
unfolding reparent
reparent-Reparented me s settled inside free =
    let r = rounds (length s.procs) 0 me s settled inside free (omega arith) in
    record { procs = r.procs; runs = r.runs; adopted = r.adopted }
