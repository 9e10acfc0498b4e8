-- ===== src/Bio/Ring.antt =====
-- The list of buffers of kernel/bio.c through `next` and `prev`.
use os_project_cs.Prelude.{ℕ, ◌≡◌, ◌≢◌, refl, ◌∙◌, List, [], ◌∷◌, ◌++◌, update, sym, ==_refl, ==_ne}
use os_project_cs.Bio.{Bcache, nbuf}

-- From `x` along `f` over the list to `y`.
abbrev pub Walk : (ℕ → ℕ) → ℕ → List ℕ → ℕ → Type 0
Walk f x [] y = f x ≡ y
Walk f x (a ∷ l) y = (f x ≡ a) × Walk f a l y

-- Along `p` each of the list, and `y` after it, leads back to the one before, the first one to `x`.
abbrev pub Back : (ℕ → ℕ) → ℕ → List ℕ → ℕ → Type 0
Back p x [] y = p y ≡ x
Back p x (a ∷ l) y = (p a ≡ x) × Back p a l y

abbrev pub Avoids : ℕ → List ℕ → Type 0
Avoids a [] = Unit
Avoids a (b ∷ l) = (a ≢ b) × Avoids a l

abbrev pub Distinct : List ℕ → Type 0
Distinct [] = Unit
Distinct (a ∷ l) = Avoids a l × Distinct l

-- The buffers in the order of `next`, the most recent first, once each.
pub record Ring (s : Bcache) (l : List ℕ) : Type 0 where
  pub forwards : Walk s.next nbuf l nbuf
  pub backwards : Back s.prev nbuf l nbuf
  pub distinct : Distinct (nbuf ∷ l)

pub update_at : (f : ℕ → ℕ) (a v : ℕ) → update f a v a ≡ v
update_at f a v = rw (==_refl a) refl

pub update_off : (f : ℕ → ℕ) (a v b : ℕ) → a ≢ b → update f a v b ≡ f b
update_off f a v b ne = rw (==_ne a b ne) refl

-- `f` and `g` lead on in the same way from every place of the list.
abbrev pub Agrees : (ℕ → ℕ) → (ℕ → ℕ) → List ℕ → Type 0
Agrees f g [] = Unit
Agrees f g (a ∷ l) = (g a ≡ f a) × Agrees f g l

pub Agrees-update : (f : ℕ → ℕ) (a v : ℕ) (l : List ℕ) → Avoids a l → Agrees f (update f a v) l
Agrees-update f a v [] h = tt
Agrees-update f a v (b ∷ l) (ne, h) = (update_off f a v b ne, Agrees-update f a v l h)

pub Agrees-trans : (f g k : ℕ → ℕ) (l : List ℕ) → Agrees f g l → Agrees g k l → Agrees f k l
Agrees-trans f g k [] h i = tt
Agrees-trans f g k (a ∷ l) (e, h) (j, i) = (j ∙ e, Agrees-trans f g k l h i)

pub Walk-same :
    (f g : ℕ → ℕ) (x z : ℕ) (l : List ℕ) (y : ℕ)
    → g z ≡ f x
    → Agrees f g l
    → Walk f x l y
    → Walk g z l y
Walk-same f g x z [] y e h w = e ∙ w
Walk-same f g x z (a ∷ l) y e (j, h) (i, w) = (e ∙ i, Walk-same f g a a l y j h w)

pub Back-agrees :
    (p q : ℕ → ℕ) (x : ℕ) (l : List ℕ) (y : ℕ)
    → Agrees p q l
    → q y ≡ p y
    → Back p x l y
    → Back q x l y
Back-agrees p q x [] y h e w = e ∙ w
Back-agrees p q x (a ∷ l) y (j, h) e (i, w) = (j ∙ i, Back-agrees p q a l y h e w)

abbrev pub last : ℕ → List ℕ → ℕ
last x [] = x
last x (a ∷ l) = last a l

abbrev pub first : List ℕ → ℕ → ℕ
first [] y = y
first (a ∷ l) y = a

pub Walk-first : (f : ℕ → ℕ) (x : ℕ) (l : List ℕ) (y : ℕ) → Walk f x l y → f x ≡ first l y
Walk-first f x [] y w = w
Walk-first f x (a ∷ l) y (e, w) = e

pub Walk-at :
    (f : ℕ → ℕ) (x : ℕ) (xs : List ℕ) (b : ℕ) (ys : List ℕ) (y : ℕ)
    → Walk f x (xs ++ b ∷ ys) y
    → f b ≡ first ys y
Walk-at f x [] b ys y (e, w) = Walk-first f b ys y w
Walk-at f x (a ∷ xs) b ys y (e, w) = Walk-at f a xs b ys y w

pub Back-at :
    (p : ℕ → ℕ) (x : ℕ) (xs : List ℕ) (b : ℕ) (ys : List ℕ) (y : ℕ)
    → Back p x (xs ++ b ∷ ys) y
    → p b ≡ last x xs
Back-at p x [] b ys y (e, w) = e
Back-at p x (a ∷ xs) b ys y (e, w) = Back-at p a xs b ys y w

Avoids-right : (a : ℕ) (xs ys : List ℕ) → Avoids a (xs ++ ys) → Avoids a ys
Avoids-right a [] ys h = h
Avoids-right a (x ∷ xs) ys (ne, h) = Avoids-right a xs ys h

pub Avoids-without :
    (a : ℕ) (xs : List ℕ) (b : ℕ) (ys : List ℕ) → Avoids a (xs ++ b ∷ ys) → Avoids a (xs ++ ys)
Avoids-without a [] b ys (ne, h) = h
Avoids-without a (x ∷ xs) b ys (ne, h) = (ne, Avoids-without a xs b ys h)

pub Distinct-without :
    (xs : List ℕ) (b : ℕ) (ys : List ℕ) → Distinct (xs ++ b ∷ ys) → Distinct (xs ++ ys)
Distinct-without [] b ys (a, d) = d
Distinct-without (x ∷ xs) b ys (a, d) = (Avoids-without x xs b ys a, Distinct-without xs b ys d)

-- The last of a list is none that it avoids.
pub last_ne : (a x : ℕ) (xs zs : List ℕ) → a ≢ x → Avoids a (xs ++ zs) → last x xs ≢ a
last_ne a x [] zs ne h = λ e. ne (sym e)
last_ne a x (b ∷ xs) zs ne (m, h) = last_ne a b xs zs m h

first_ne : (a : ℕ) (ys : List ℕ) (y : ℕ) → Avoids a ys → a ≢ y → first ys y ≢ a
first_ne a [] y h ne e = ne (sym e)
first_ne a (b ∷ ys) y (m, h) ne e = m (sym e)

pub Walk-without :
    (f : ℕ → ℕ) (x : ℕ) (xs : List ℕ) (b : ℕ) (ys : List ℕ) (y : ℕ)
    → Distinct (x ∷ xs ++ b ∷ ys)
    → Walk f x (xs ++ b ∷ ys) y
    → Walk (update f (last x xs) (f b)) x (xs ++ ys) y
Walk-without f x [] b ys y (a, d) (e, w) =
    Walk-same f (update f x (f b)) b x ys y (update_at f x (f b)) (Agrees-update f x (f b) ys a.1) w
Walk-without f x (c ∷ xs) b ys y ((ne, a), d) (e, w) = (
  update_off f (last c xs) (f b) x (last_ne x c xs (b ∷ ys) ne a) ∙ e,
  Walk-without f c xs b ys y d w,
)

pub Back-without :
    (p : ℕ → ℕ) (x : ℕ) (xs : List ℕ) (b : ℕ) (ys : List ℕ) (y : ℕ)
    → Distinct (xs ++ b ∷ ys)
    → Avoids y (xs ++ b ∷ ys)
    → Back p x (xs ++ b ∷ ys) y
    → Back (update p (first ys y) (last x xs)) x (xs ++ ys) y
Back-without p x [] b [] y d h (e, w) = update_at p y x
Back-without p x [] b (c ∷ ys) y (a, (m, d)) (n, (o, h)) (e, (i, w)) = (
  update_at p c x,
  Back-agrees p (update p c x) c ys y (Agrees-update p c x ys m)
      (update_off p c x y (λ k. o (sym k))) w,
)
Back-without p x (c ∷ xs) b ys y (a, d) (ne, h) (e, w) = (
  update_off p (first ys y) (last c xs) c
        (first_ne c ys y (Avoids-right c xs ys (Avoids-without c xs b ys a)) (λ k. ne (sym k)))
      ∙ e,
  Back-without p c xs b ys y d h w,
)
