-- ===== src/Proc/Numbers.antt =====
-- The process ids in the table of kernel/proc.c as a list of numbers, and how calls change it.
use os_project_cs.Prelude.{
  ℕ, zero, suc, ◌+◌, ◌≡◌, ◌≢◌, refl, ◌∙◌, Bool, true, false, not, ◌&&◌, List, [], ◌∷◌, ◌++◌, Option,
  some, inl, inr, ◌⊎◌, arith, if◌then◌else◌, sym, ap, get_elem?, set, ◌<◌, subst, ℕ_discrete,
}
use mathlib.Core.List.{map}
use mathlib.Core.Option.{some-injective}
use os_project_cs.Spinlock.{is_cpu}
use os_project_cs.Proc.{Proc, runnable, Chan}
use os_project_cs.Proc.Wakeup.{Each, waits_on}
use os_project_cs.Proc.Kill.{Killing, nobody, first_of}

abbrev pub pids : List Proc → List ℕ
pids ps = map (λ p. p.pid) ps

abbrev pub Below : ℕ → List ℕ → Type 0
Below n [] = Unit
Below n (x ∷ xs) = (x < n) × Below n xs

abbrev pub Missing : ℕ → List ℕ → Type 0
Missing n [] = Unit
Missing n (x ∷ xs) = (x ≢ n) × Missing n xs

-- No number but 0, the pid of an unused slot, occurs twice.
abbrev pub Distinct : List ℕ → Type 0
Distinct [] = Unit
Distinct (x ∷ xs) = ((x ≡ 0) ⊎ Missing x xs) × Distinct xs

pub Below-more : (n : ℕ) (xs : List ℕ) → Below n xs → Below (n + 1) xs
Below-more n [] h = tt
Below-more n (x ∷ xs) (a, h) = (omega arith, Below-more n xs h)

-- A number in the middle replaced.
pub Below-replace :
    (n : ℕ) (xs : List ℕ) (x y : ℕ) (ys : List ℕ)
    → y < n
    → Below n (xs ++ x ∷ ys)
    → Below n (xs ++ y ∷ ys)
Below-replace n [] x y ys l (a, h) = (l, h)
Below-replace n (z ∷ xs) x y ys l (a, h) = (a, Below-replace n xs x y ys l h)

Missing-replace :
    (n : ℕ) (xs : List ℕ) (x y : ℕ) (ys : List ℕ)
    → y ≢ n
    → Missing n (xs ++ x ∷ ys)
    → Missing n (xs ++ y ∷ ys)
Missing-replace n [] x y ys l (a, h) = (l, h)
Missing-replace n (z ∷ xs) x y ys l (a, h) = (a, Missing-replace n xs x y ys l h)

Below-Missing : (n : ℕ) (xs : List ℕ) → Below n xs → Missing n xs
Below-Missing n [] h = tt
Below-Missing n (x ∷ xs) (a, h) = ((λ e. omega arith), Below-Missing n xs h)

-- The new number is 0 or larger than all.
pub Distinct-replace :
    (n : ℕ) (xs : List ℕ) (x y : ℕ) (ys : List ℕ)
    → (y ≡ 0) ⊎ (y ≡ n)
    → Below n (xs ++ x ∷ ys)
    → Distinct (xs ++ x ∷ ys)
    → Distinct (xs ++ y ∷ ys)
Distinct-replace n [] x y ys (inl e) b (d, ds) = (inl e, ds)
Distinct-replace n [] x y ys (inr e) (b, bs) (d, ds) =
    (inr (subst (λ k. Missing k ys) (sym e) (Below-Missing n ys bs)), ds)
Distinct-replace n (z ∷ xs) x y ys new (b, bs) (d, ds) =
    (head (ℕ_discrete z 0) d, Distinct-replace n xs x y ys new bs ds)
  where
    head : Dec (z ≡ 0) → (z ≡ 0) ⊎ Missing z (xs ++ x ∷ ys) → (z ≡ 0) ⊎ Missing z (xs ++ y ∷ ys)
    head (yes e) o = inl e
    head (no ne) (inl e) = inl e
    head (no ne) (inr m) = inr (Missing-replace z xs x y ys (λ e. other new e) m)
      where
        other : (y ≡ 0) ⊎ (y ≡ n) → y ≢ z
        other (inl e) f = ne (omega arith)
        other (inr e) f = omega arith

pub pids-append :
    (xs : List Proc) (p : Proc) (ys : List Proc) → pids (xs ++ p ∷ ys) ≡ pids xs ++ p.pid ∷ pids ys
pids-append [] p ys = refl
pids-append (x ∷ xs) p ys = ap (◌∷◌ x.pid) (pids-append xs p ys)

pub Each-pids :
    (ch : Chan) (current : Option ℕ) (i : ℕ) (ps qs : List Proc)
    → Each ch current i ps qs
    → pids qs ≡ pids ps
Each-pids ch current i [] [] h = refl
Each-pids ch current i [] (q ∷ qs) h = elim h [ ]
Each-pids ch current i (p ∷ ps) [] h = elim h [ ]
Each-pids ch current i (p ∷ ps) (q ∷ qs) (e, h) =
    let same : q.pid ≡ p.pid = ap (λ r. r.pid) e ∙ kept (not (is_cpu current i) && waits_on ch p) in
    rw (same, Each-pids ch current (i + 1) ps qs h)
  where
    kept : (b : Bool) → (if b then record p { state = runnable } else p).pid ≡ p.pid
    kept true = refl
    kept false = refl

pub Killing-pids :
    {pid : ℕ} {b : Bool} {ps qs : List Proc} → Killing pid b ps qs → pids qs ≡ pids ps
Killing-pids (nobody a) = refl
Killing-pids (first_of before p rest a e) =
    pids-append before _ rest ∙ sym (pids-append before p rest)

pub set-pids :
    (ps : List Proc) (i : ℕ) (p q : Proc)
    → get_elem? ps i ≡ some p
    → q.pid ≡ p.pid
    → pids (set ps i q) ≡ pids ps
set-pids [] i p q h e = refl
set-pids (x ∷ ps) zero p q h e =
    ap (λ k. k ∷ pids ps) (e ∙ ap (λ r. r.pid) (some-injective _ _ (sym h)))
set-pids (x ∷ ps) (suc i) p q h e = ap (◌∷◌ x.pid) (set-pids ps i p q h e)
