-- ===== src/Proc/Exit/Follows.antt =====
-- What a slot of kernel/proc.c holds after others were woken and children given to init.
use os_project_cs.Prelude.{
  ℕ, zero, suc, ◌+◌, ◌≡◌, refl, ◌∙◌, sym, ap, subst, Bool, true, false, not, ◌&&◌, List, [], ◌∷◌,
  Option, some, if◌then◌else◌, get_elem?, arith, ◌⊎◌, inl, inr, Bool-cases,
}
use mathlib.Core.Option.{some-injective, none-ne-some}
use os_project_cs.Spinlock.{is_cpu}
use os_project_cs.Proc.{Proc, runnable, is_sleeping, Chan}
use os_project_cs.Proc.Wakeup.{waits_on, Each}

-- What a slot holds after `wakeup`, and what it held before.
pub Each-at :
    (ch : Chan) (current : Option ℕ) (i : ℕ) (ps qs : List Proc) (j : ℕ) (q : Proc)
    → Each ch current i ps qs
    → get_elem? qs j ≡ some q
    → (p : Proc) × (get_elem? ps j ≡ some p)
      × (q ≡ (
          if not (is_cpu current (i + j)) && waits_on ch p
          then record p { state = runnable }
          else p))
Each-at ch current i [] [] j q h at = absurd (none-ne-some _ at)
Each-at ch current i [] (x ∷ qs) j q h at = elim h [ ]
Each-at ch current i (p ∷ ps) [] j q h at = elim h [ ]
Each-at ch current i (p ∷ ps) (x ∷ qs) zero q h at =
    let z : i + 0 ≡ i = omega arith in (p, refl, rw z (sym (some-injective _ _ at) ∙ h.0))
Each-at ch current i (p ∷ ps) (x ∷ qs) (suc j) q h at =
    let r = Each-at ch current (i + 1) ps qs j q h.1 at in
    let z : i + suc j ≡ i + 1 + j = omega arith in (r.0, r.1, rw z (r.2))

-- The slot may have been woken, and may have a new parent.
pub record Follows (p q : Proc) : Type 0 where
  pub same : q ≡ record p { parent = q.parent; state = q.state }
  pub woken : (q.state ≡ p.state) ⊎ ((is_sleeping p.state ≡ true) × (q.state ≡ runnable))

pub Follows-refl : (p : Proc) → Follows p p
Follows-refl p = record { same = refl; woken = inl refl }

pub Follows-trans : (p q r : Proc) → Follows p q → Follows q r → Follows p r
Follows-trans p q r f g = record {
  same =
      let keep : Proc → Proc = λ x. record x { parent = r.parent; state = r.state } in
      g.same ∙ ap keep f.same;
  woken = go f.woken g.woken;
}
  where
    go :
        (q.state ≡ p.state) ⊎ ((is_sleeping p.state ≡ true) × (q.state ≡ runnable))
        → (r.state ≡ q.state) ⊎ ((is_sleeping q.state ≡ true) × (r.state ≡ runnable))
        → (r.state ≡ p.state) ⊎ ((is_sleeping p.state ≡ true) × (r.state ≡ runnable))
    go (inl e) (inl d) = inl (d ∙ e)
    go (inr (s, e)) (inl d) = inr (s, d ∙ e)
    go (inl e) (inr (s, d)) = inr (subst (λ x. is_sleeping x ≡ true) e s, d)
    go (inr (s, e)) (inr (t, d)) = inr (s, d)

pub woken-Follows :
    (b : Bool) (ch : Chan) (p : Proc)
    → Follows p (if b && waits_on ch p then record p { state = runnable } else p)
woken-Follows b ch p = elim (Bool-cases (b && waits_on ch p)) [
  | inl t ↦
      let asleep : is_sleeping p.state ≡ true = ground arith in
      rw t (record { same = refl; woken = inr (asleep, refl) })
  | inr f ↦ rw f (Follows-refl p)
]

-- A slot that is not waiting is not waiting later.
pub waits-Follows :
    (ch : Chan) (p q : Proc) → Follows p q → waits_on ch p ≡ false → waits_on ch q ≡ false
waits-Follows ch p q f w = go f.woken
  where
    chan : q.chan ≡ p.chan
    chan = ap (λ x. x.chan) f.same

    go :
        (q.state ≡ p.state) ⊎ ((is_sleeping p.state ≡ true) × (q.state ≡ runnable))
        → waits_on ch q ≡ false
    go (inl e) = rw (e, chan) w
    go (inr (_, e)) = rw e refl
