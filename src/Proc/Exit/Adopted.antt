-- ===== src/Proc/Exit/Adopted.antt =====
-- The rounds of `reparent` of kernel/proc.c.
use os_project_cs.Prelude.{
  ℕ, zero, suc, ◌+◌, ◌≤◌, ◌≡◌, ◌≢◌, refl, ◌∙◌, sym, ap, subst, Bool, true, false, not, ◌&&◌, List,
  [], ◌∷◌, some, ◌==◌, leb, if◌then◌else◌, get_elem?, set, length, arith, ◌⊎◌, inl, inr, Bool-cases,
  get_elem?-set_cases, ==_ne, ℕ_discrete,
}
use mathlib.Core.Option.{some-injective}
use os_project_cs.Spinlock.{is_cpu}
use os_project_cs.Proc.{Proc, Kernel, runnable, Chan, slot}
use os_project_cs.Proc.Quiet.{AllFree}
use os_project_cs.Proc.Wakeup.{waits_on, Each}
use os_project_cs.Proc.Exit.{adopted}
use os_project_cs.Proc.Exit.Follows.{
  Each-at, Follows, Follows-refl, Follows-trans, woken-Follows, waits-Follows,
}

-- The slots `t` after the children of `me` in the slots from `j` on were given to init.
pub record Adopted (me j : ℕ) (s : Kernel) (t : List Proc) : Type 0 where
  pub free : AllFree t
  pub same_slots : length t ≡ length s.procs
  pub each :
      (i : ℕ) (q : Proc)
      → get_elem? t i ≡ some q
      → (p : Proc) × (get_elem? s.procs i ≡ some p)
        × Follows p q
        × (q.parent ≡ (if leb j i && is_cpu p.parent me then some s.initproc else p.parent))
  pub init_awake :
      (i : ℕ) (p q : Proc)
      → j ≤ i
      → get_elem? s.procs i ≡ some p
      → is_cpu p.parent me ≡ true
      → is_cpu s.current s.initproc ≡ false
      → get_elem? t s.initproc ≡ some q
      → waits_on (slot s.initproc) q ≡ false

pub AllFree-write :
    (ps : List Proc) (i : ℕ) (p new : Proc)
    → AllFree ps
    → get_elem? ps i ≡ some p
    → new.lock ≡ p.lock
    → AllFree (set ps i new)
AllFree-write [] i p new h at e = tt
AllFree-write (x ∷ ps) zero p new h at e =
    (e ∙ ap (λ y. y.lock) (sym (some-injective _ _ at)) ∙ h.0, h.1)
AllFree-write (x ∷ ps) (suc i) p new h at e = (h.0, AllFree-write ps i p new h.1 at e)

-- The slots after one round, at a child of `me`.
pub record Round (j : ℕ) (s : Kernel) (t : List Proc) : Type 0 where
  pub each :
      (i : ℕ) (q : Proc)
      → get_elem? t i ≡ some q
      → (p : Proc) × (get_elem? s.procs i ≡ some p)
        × Follows p q
        × (q.parent ≡ (if i == j then some s.initproc else p.parent))
  pub awake :
      (q : Proc)
      → is_cpu s.current s.initproc ≡ false
      → get_elem? t s.initproc ≡ some q
      → waits_on (slot s.initproc) q ≡ false

pub woken_parent :
    (b : Bool) (p q : Proc)
    → q ≡ (if b then record p { state = runnable } else p)
    → q.parent ≡ p.parent
woken_parent true p q e = ap (λ x. x.parent) e
woken_parent false p q e = ap (λ x. x.parent) e

pub woken_awake :
    (ch : Chan) (p q : Proc)
    → q ≡ (if waits_on ch p then record p { state = runnable } else p)
    → waits_on ch q ≡ false
woken_awake ch p q e = elim (Bool-cases (waits_on ch p)) [
  | inl t ↦ let is : q ≡ record p { state = runnable } = e ∙ rw t refl in rw is refl
  | inr f ↦ let is : q ≡ p = e ∙ rw f refl in rw is f
]

pub round_lem :
    (j : ℕ) (s : Kernel) (pp : Proc) (t : List Proc)
    → get_elem? s.procs j ≡ some pp
    → Each (slot s.initproc) s.current 0 (adopted j pp s).procs t
    → Round j s t
round_lem j s pp t at h = record { each = each; awake = awake }
  where
    new : Proc
    new = record pp { parent = some s.initproc }

    first :
        (i : ℕ) (p1 : Proc)
        → ((j ≡ i) × (p1 ≡ new)) ⊎ ((j ≢ i) × (get_elem? s.procs i ≡ some p1))
        → (p : Proc) × (get_elem? s.procs i ≡ some p)
          × Follows p p1
          × (p1.parent ≡ (if i == j then some s.initproc else p.parent))
    first i p1 (inl (e, is)) =
        let here : get_elem? s.procs i ≡ some pp =
          subst (λ k. get_elem? s.procs k ≡ some pp) e at in
        let t : (i == j) ≡ true = ground arith in
        (
          pp,
          here,
          subst (Follows pp) (sym is) (record { same = refl; woken = inl refl }),
          rw t (ap (λ x. x.parent) is),
        )
    first i p1 (inr (ne, old)) =
        let t : (i == j) ≡ false = ==_ne i j (λ e. ne (sym e)) in
        (p1, old, Follows-refl p1, rw t refl)

    each :
        (i : ℕ) (q : Proc)
        → get_elem? t i ≡ some q
        → (p : Proc) × (get_elem? s.procs i ≡ some p)
          × Follows p q
          × (q.parent ≡ (if i == j then some s.initproc else p.parent))
    each i q there =
        let r = Each-at (slot s.initproc) s.current 0 (adopted j pp s).procs t i q h there in
        let p1 = r.0 in
        let b = not (is_cpu s.current (0 + i)) in
        let f = first i p1 (get_elem?-set_cases s.procs j i new p1 (r.1)) in
        let g = subst (Follows p1) (sym (r.2)) (woken-Follows b (slot s.initproc) p1) in
        (
          f.0,
          f.1,
          Follows-trans (f.0) p1 q (f.2) g,
          woken_parent (b && waits_on (slot s.initproc) p1) p1 q (r.2) ∙ f.3,
        )

    awake :
        (q : Proc)
        → is_cpu s.current s.initproc ≡ false
        → get_elem? t s.initproc ≡ some q
        → waits_on (slot s.initproc) q ≡ false
    awake q other there =
        let r =
          Each-at (slot s.initproc) s.current 0 (adopted j pp s).procs t s.initproc q h there in
        let z : 0 + s.initproc ≡ s.initproc = omega arith in
        woken_awake (slot s.initproc) (r.0) q (r.2 ∙ rw (z, other) refl)

-- A round, and then the later ones.
pub Adopted-child :
    (me j : ℕ) (s : Kernel) (pp : Proc) (mid t : List Proc)
    → get_elem? s.procs j ≡ some pp
    → is_cpu pp.parent me ≡ true
    → length mid ≡ length s.procs
    → Round j s mid
    → Adopted me (j + 1) (record s { procs = mid }) t
    → Adopted me j s t
Adopted-child me j s pp mid t at child slots round h = record {
  free = h.free;
  same_slots = h.same_slots ∙ slots;
  each = λ i q there.
      let r = h.each i q there in
      let f = round.each i (r.0) (r.1) in
      (
        f.0,
        f.1,
        Follows-trans (f.0) (r.0) q (f.2) (r.2),
        parents i (f.0) (r.0) q (f.1) (f.3) (r.3) (ℕ_discrete i j),
      );
  init_awake = λ i p q le old kid other there.
      let r = h.each s.initproc q there in
      waits-Follows (slot s.initproc) (r.0) q (r.2) (round.awake (r.0) other (r.1));
}
  where
    parents :
        (i : ℕ) (p p1 q : Proc)
        → get_elem? s.procs i ≡ some p
        → p1.parent ≡ (if i == j then some s.initproc else p.parent)
        → q.parent ≡ (if leb (j + 1) i && is_cpu p1.parent me then some s.initproc else p1.parent)
        → Dec (i ≡ j)
        → q.parent ≡ (if leb j i && is_cpu p.parent me then some s.initproc else p.parent)
    parents i p p1 q old a b (yes e) =
        let is : pp ≡ p =
          some-injective _ _ (sym at ∙ subst (λ k. get_elem? s.procs k ≡ some p) e old) in
        let kid : is_cpu p.parent me ≡ true = subst (λ x. is_cpu x.parent me ≡ true) is child in
        let t : (i == j) ≡ true = ground arith in
        let late : leb (j + 1) i ≡ false = ground arith in
        let early : leb j i ≡ true = ground arith in b ∙ rw (late, early, kid) (a ∙ rw t refl)
    parents i p p1 q old a b (no ne) =
        let t : (i == j) ≡ false = ==_ne i j ne in
        let same : p1.parent ≡ p.parent = a ∙ rw t refl in
        let later : leb (j + 1) i ≡ leb j i = ground arith in b ∙ rw (same, later) refl

-- A slot of no child left alone, and then the later ones.
pub Adopted-other :
    (me j : ℕ) (s : Kernel) (pp : Proc) (t : List Proc)
    → get_elem? s.procs j ≡ some pp
    → is_cpu pp.parent me ≡ false
    → Adopted me (j + 1) s t
    → Adopted me j s t
Adopted-other me j s pp t at other h = record {
  free = h.free;
  same_slots = h.same_slots;
  each = λ i q there.
      let r = h.each i q there in (r.0, r.1, r.2, parents i (r.0) q (r.1) (r.3) (ℕ_discrete i j));
  init_awake = λ i p q le old kid free there.
      h.init_awake i p q (after_j i p le old kid (ℕ_discrete i j)) old kid free there;
}
  where
    here : (i : ℕ) (p : Proc) → i ≡ j → get_elem? s.procs i ≡ some p → is_cpu p.parent me ≡ false
    here i p e old =
        let is : pp ≡ p =
          some-injective _ _ (sym at ∙ subst (λ k. get_elem? s.procs k ≡ some p) e old) in
        subst (λ x. is_cpu x.parent me ≡ false) is other

    parents :
        (i : ℕ) (p q : Proc)
        → get_elem? s.procs i ≡ some p
        → q.parent ≡ (if leb (j + 1) i && is_cpu p.parent me then some s.initproc else p.parent)
        → Dec (i ≡ j)
        → q.parent ≡ (if leb j i && is_cpu p.parent me then some s.initproc else p.parent)
    parents i p q old b (yes e) =
        let stays = here i p e old in
        let late : leb (j + 1) i ≡ false = ground arith in
        let early : leb j i ≡ true = ground arith in b ∙ rw (late, early, stays) refl
    parents i p q old b (no ne) =
        let later : leb (j + 1) i ≡ leb j i = ground arith in b ∙ rw later refl

    after_j :
        (i : ℕ) (p : Proc)
        → j ≤ i
        → get_elem? s.procs i ≡ some p
        → is_cpu p.parent me ≡ true
        → Dec (i ≡ j)
        → j + 1 ≤ i
    after_j i p le old kid (yes e) = let stays = here i p e old in absurd (ground arith)
    after_j i p le old kid (no ne) = omega arith
