-- ===== src/Proc/Named.antt =====
-- In the table of kernel/proc.c only unused slots have the pid 0.
use os_project_cs.Prelude.{
  ℕ, zero, suc, ◌+◌, ◌≡◌, refl, Bool, true, false, not, ◌&&◌, List, [], ◌∷◌, ◌++◌, Option, some,
  arith, if◌then◌else◌, sym, get_elem?, set, subst, inl, inr, Bool-cases,
}
use mathlib.Core.Option.{some-injective}
use os_project_cs.Spinlock.{is_cpu}
use os_project_cs.Proc.{
  Proc, ProcState, runnable, unused, used, sleeping, running, zombie, Chan, is_unused, is_sleeping,
}
use os_project_cs.Proc.Wakeup.{Each, waits_on}
use os_project_cs.Proc.Kill.{Killing, nobody, first_of}

abbrev pub IsNamed : Proc → Type 0
IsNamed p = p.pid ≡ 0 → is_unused p.state ≡ true

abbrev pub AllNamed : List Proc → Type 0
AllNamed [] = Unit
AllNamed (p ∷ ps) = IsNamed p × AllNamed ps

pub AllNamed-replace :
    (xs : List Proc) (p q : Proc) (ys : List Proc)
    → IsNamed q
    → AllNamed (xs ++ p ∷ ys)
    → AllNamed (xs ++ q ∷ ys)
AllNamed-replace [] p q ys n (_, h) = (n, h)
AllNamed-replace (x ∷ xs) p q ys n (a, h) = (a, AllNamed-replace xs p q ys n h)

pub AllNamed-middle :
    (xs : List Proc) (p : Proc) (ys : List Proc) → AllNamed (xs ++ p ∷ ys) → IsNamed p
AllNamed-middle [] p ys (n, _) = n
AllNamed-middle (x ∷ xs) p ys (_, h) = AllNamed-middle xs p ys h

pub AllNamed-at :
    (ps : List Proc) (i : ℕ) (p : Proc) → AllNamed ps → get_elem? ps i ≡ some p → IsNamed p
AllNamed-at [] i p h e = absurd (cc)
AllNamed-at (x ∷ ps) zero p (n, _) e = subst IsNamed (some-injective _ _ e) n
AllNamed-at (x ∷ ps) (suc i) p (_, h) e = AllNamed-at ps i p h e

pub AllNamed-set :
    (ps : List Proc) (i : ℕ) (q : Proc) → IsNamed q → AllNamed ps → AllNamed (set ps i q)
AllNamed-set [] i q n h = h
AllNamed-set (x ∷ ps) zero q n (_, h) = (n, h)
AllNamed-set (x ∷ ps) (suc i) q n (a, h) = (a, AllNamed-set ps i q n h)

pub not_both : {b : Bool} → b ≡ true → b ≡ false → ⊥
not_both t f = absurd (cc)

-- A slot that sleeps is in use.
asleep_used : (st : ProcState) → is_sleeping st ≡ true → is_unused st ≡ false
asleep_used unused e = absurd (cc)
asleep_used used e = refl
asleep_used sleeping e = refl
asleep_used runnable e = refl
asleep_used running e = refl
asleep_used zombie e = refl

woken-IsNamed :
    (b : Bool) (ch : Chan) (p : Proc)
    → IsNamed p
    → IsNamed (if b && waits_on ch p then record p { state = runnable } else p)
woken-IsNamed b ch p n = elim (Bool-cases (b && waits_on ch p)) [
  | inr f ↦ rw f n
  | inl t ↦
      let sleeps : is_sleeping p.state ≡ true = ground arith in
      let live = asleep_used p.state sleeps in rw t (λ z. absurd (not_both (n z) live))
]

pub Each-AllNamed :
    (ch : Chan) (current : Option ℕ) (i : ℕ) (ps qs : List Proc)
    → Each ch current i ps qs
    → AllNamed ps
    → AllNamed qs
Each-AllNamed ch current i [] [] h n = n
Each-AllNamed ch current i [] (q ∷ qs) h n = elim h [ ]
Each-AllNamed ch current i (p ∷ ps) [] h n = elim h [ ]
Each-AllNamed ch current i (p ∷ ps) (q ∷ qs) (e, h) (a, n) = (
  subst IsNamed (sym e) (woken-IsNamed (not (is_cpu current i)) ch p a),
  Each-AllNamed ch current (i + 1) ps qs h n,
)

-- The state that `kill` leaves its victim in.
victim-IsNamed :
    (p : Proc)
    → IsNamed p
    → IsNamed
        (record p { killed = true; state = if is_sleeping p.state then runnable else p.state })
victim-IsNamed p n = elim (Bool-cases (is_sleeping p.state)) [
  | inr f ↦ rw f n
  | inl t ↦ let live = asleep_used p.state t in rw t (λ z. absurd (not_both (n z) live))
]

pub Killing-AllNamed :
    {pid : ℕ} {b : Bool} {ps qs : List Proc} → Killing pid b ps qs → AllNamed ps → AllNamed qs
Killing-AllNamed (nobody a) n = n
Killing-AllNamed (first_of before p rest a e) n =
    AllNamed-replace before p _ rest (victim-IsNamed p (AllNamed-middle before p rest n)) n
