-- ===== src/Bio/Unique.antt =====
-- No block of a device is cached twice by kernel/bio.c.
use os_project_cs.Prelude.{
  ℕ, zero, suc, ◌+◌, ◌≡◌, ◌≢◌, refl, ◌∙◌, Bool, false, not, ◌&&◌, List, [], ◌∷◌, ◌++◌, none, arith,
  ◌==◌, update, sym, ap, subst, ◌<◌, ◌≤◌, ◌^◌, length,
}
use os_project_cs.Outcome.{Outcome, ok, panic, blocked}
use os_project_cs.Spinlock.Section.{IsFree, unlocked, after-IsFree}
use os_project_cs.Spinlock.Nesting.{IsSettled}
use os_project_cs.Bio.{Bcache, nbuf, bget, brelse, binit, init_rounds, push_front}
use os_project_cs.Bio.Init.{count_up, binit-Ring}
use os_project_cs.Bio.Ring.{Ring, Avoids, Distinct}
use os_project_cs.Bio.Lru.{brelse-Dropped, same_links}
use os_project_cs.Bio.Get.{FirstSuch, later, caches, Got, hit, recycled, all_used, bget-Got}

-- Two buffers cache the same block of a device; device 0 is that of a buffer never used.
abbrev pub clash : (ℕ → ℕ) → (ℕ → ℕ) → ℕ → ℕ → Bool
clash dev blockno a c = not (dev a == 0) && ((dev a == dev c) && (blockno a == blockno c))

abbrev pub Alone : (ℕ → ℕ) → (ℕ → ℕ) → ℕ → List ℕ → Type 0
Alone dev blockno a [] = Unit
Alone dev blockno a (c ∷ l) = (clash dev blockno a c ≡ false) × Alone dev blockno a l

abbrev pub Unique : (ℕ → ℕ) → (ℕ → ℕ) → List ℕ → Type 0
Unique dev blockno [] = Unit
Unique dev blockno (a ∷ l) = Alone dev blockno a l × Unique dev blockno l

clash_sym :
    (dev blockno : ℕ → ℕ) (a c : ℕ) → clash dev blockno a c ≡ false → clash dev blockno c a ≡ false
clash_sym dev blockno a c h = ground arith

Alone-head :
    (dev blockno : ℕ → ℕ) (a : ℕ) (xs : List ℕ) (b : ℕ) (ys : List ℕ)
    → Alone dev blockno a (xs ++ b ∷ ys)
    → (clash dev blockno a b ≡ false) × Alone dev blockno a (xs ++ ys)
Alone-head dev blockno a [] b ys h = h
Alone-head dev blockno a (x ∷ xs) b ys (e, h) =
    let rest = Alone-head dev blockno a xs b ys h in (rest.0, (e, rest.1))

Unique-front :
    (dev blockno : ℕ → ℕ) (xs : List ℕ) (b : ℕ) (ys : List ℕ)
    → Unique dev blockno (xs ++ b ∷ ys)
    → Unique dev blockno (b ∷ xs ++ ys)
Unique-front dev blockno [] b ys h = h
Unique-front dev blockno (x ∷ xs) b ys (a, h) =
    let rest = Unique-front dev blockno xs b ys h in
    let apart = Alone-head dev blockno x xs b ys a in
    ((clash_sym dev blockno x b apart.0, rest.0), (apart.1, rest.1))

-- No buffer of the list caches the block.
abbrev Uncached : (ℕ → ℕ) → (ℕ → ℕ) → ℕ → ℕ → List ℕ → Type 0
Uncached dev blockno d n [] = Unit
Uncached dev blockno d n (a ∷ l) =
    (((dev a == d) && (blockno a == n)) ≡ false) × Uncached dev blockno d n l

FirstSuch-Uncached :
    (s : Bcache) (d n : ℕ) (l : List ℕ)
    → FirstSuch (caches s d n) l none
    → Uncached s.dev s.blockno d n l
FirstSuch-Uncached s d n [] h = tt
FirstSuch-Uncached s d n (a ∷ l) (later e h) = (e, FirstSuch-Uncached s d n l h)

clash-update :
    (dev blockno : ℕ → ℕ) (b d n a c : ℕ)
    → a ≢ c
    → ((dev a == d) && (blockno a == n)) ≡ false
    → ((dev c == d) && (blockno c == n)) ≡ false
    → clash dev blockno a c ≡ false
    → clash (update dev b d) (update blockno b n) a c ≡ false
clash-update dev blockno b d n a c ne ha hc h = ground arith

Alone-update :
    (dev blockno : ℕ → ℕ) (b d n a : ℕ) (l : List ℕ)
    → Avoids a l
    → ((dev a == d) && (blockno a == n)) ≡ false
    → Uncached dev blockno d n l
    → Alone dev blockno a l
    → Alone (update dev b d) (update blockno b n) a l
Alone-update dev blockno b d n a [] av ha u h = tt
Alone-update dev blockno b d n a (c ∷ l) (ne, av) ha (hc, u) (e, h) =
    (clash-update dev blockno b d n a c ne ha hc e, Alone-update dev blockno b d n a l av ha u h)

Unique-update :
    (dev blockno : ℕ → ℕ) (b d n : ℕ) (l : List ℕ)
    → Distinct l
    → Uncached dev blockno d n l
    → Unique dev blockno l
    → Unique (update dev b d) (update blockno b n) l
Unique-update dev blockno b d n [] ds u h = tt
Unique-update dev blockno b d n (a ∷ l) (av, ds) (ha, u) (e, h) =
    (Alone-update dev blockno b d n a l av ha u e, Unique-update dev blockno b d n l ds u h)

-- The cache between two calls, with its buffers in the order of their use.
pub record Cache (s : Bcache) (l : List ℕ) : Type 0 where
  pub free : IsFree s.cpu s.lock
  pub ring : Ring s l
  pub few : length l ≤ nbuf
  pub unique : Unique s.dev s.blockno l

-- What a call of `bget` leaves, if it returns.
abbrev Leaves : List ℕ → Outcome (ℕ × Bcache) → Type 0
Leaves l (ok (b, t)) = Cache t l
Leaves l (panic m) = Unit
Leaves l blocked = Unit

Got-Leaves :
    {d n : ℕ} {s : Bcache} {l : List ℕ} {out : Outcome (ℕ × Bcache)}
    → Cache s l
    → Got d n s l out
    → Leaves l out
Got-Leaves {d} {n} {s} {l} h (hit b c) = record {
  free = after-IsFree s.cpu h.free.settled;
  ring = same_links l refl refl h.ring;
  few = h.few;
  unique = h.unique;
}
Got-Leaves {d} {n} {s} {l} h (recycled b c i) = record {
  free = after-IsFree s.cpu h.free.settled;
  ring = same_links l refl refl h.ring;
  few = h.few;
  unique =
      Unique-update s.dev s.blockno b d n l h.ring.distinct.1 (FirstSuch-Uncached s d n l c)
        h.unique;
}
Got-Leaves h (all_used c i) = tt

length-front : (xs : List ℕ) (b : ℕ) (ys : List ℕ) → length (b ∷ xs ++ ys) ≡ length (xs ++ b ∷ ys)
length-front [] b ys = refl
length-front (x ∷ xs) b ys = ap suc (length-front xs b ys)

-- A call on the cache, with the order of the buffers before and after. A buffer that is given back has
-- a user, and a count that fits in 32 bits.
pub data Step : Bcache → List ℕ → Bcache → List ℕ → Type 0 where
  gets : {s t : Bcache} {l : List ℕ} (d n b : ℕ) → bget d n s ≡ ok (b, t) → Step s l t l
  drops_last :
      {s t : Bcache} (xs : List ℕ) (b : ℕ) (ys : List ℕ)
      → s.refcnt b ≡ 1
      → brelse b s ≡ ok t
      → Step s (xs ++ b ∷ ys) t (b ∷ xs ++ ys)
  drops :
      {s t : Bcache} (xs : List ℕ) (b : ℕ) (ys : List ℕ)
      → 1 < s.refcnt b
      → s.refcnt b < 2 ^ 32
      → brelse b s ≡ ok t
      → Step s (xs ++ b ∷ ys) t (xs ++ b ∷ ys)

pub data Reach : Bcache → List ℕ → Bcache → List ℕ → Type 0 where
  here : {s : Bcache} {l : List ℕ} → Reach s l s l
  next_step : {s t u : Bcache} {l k j : List ℕ} → Step s l t k → Reach t k u j → Reach s l u j

-- What a call of `brelse` leaves.
abbrev Keeps : List ℕ → Outcome Bcache → Type 0
Keeps l (ok t) = Cache t l
Keeps l (panic m) = Unit
Keeps l blocked = Unit

same_blocks :
    (s t : Bcache) (l : List ℕ)
    → t.dev ≡ s.dev
    → t.blockno ≡ s.blockno
    → Unique s.dev s.blockno l
    → Unique t.dev t.blockno l
same_blocks s t l e f h =
    subst (λ g. Unique g t.blockno l) (sym e) (subst (λ g. Unique s.dev g l) (sym f) h)

Step-Cache : {s t : Bcache} {l k : List ℕ} → Step s l t k → Cache s l → Cache t k
Step-Cache {s} {t} {l} {k} (gets d n b e) h =
    subst (Leaves l) e (Got-Leaves h (bget-Got d n s l h.free h.ring h.few))
Step-Cache {s} {t} {l} {k} (drops_last xs b ys one e) h =
    let d = brelse-Dropped b s xs ys h.free h.ring (omega arith) (omega arith) in
    let kept : Cache d.rest (b ∷ xs ++ ys) = record {
      free = d.free;
      ring = d.unused_first one;
      few = subst (λ n. n ≤ nbuf) (sym (length-front xs b ys)) h.few;
      unique =
          same_blocks s d.rest (b ∷ xs ++ ys) d.same_blocks.0 d.same_blocks.1
            (Unique-front s.dev s.blockno xs b ys h.unique);
    } in
    subst (Keeps (b ∷ xs ++ ys)) (sym d.runs ∙ e) kept
Step-Cache {s} {t} {l} {k} (drops xs b ys more small e) h =
    let d = brelse-Dropped b s xs ys h.free h.ring (omega arith) small in
    let kept : Cache d.rest (xs ++ b ∷ ys) = record {
      free = d.free;
      ring = d.used_stays more;
      few = h.few;
      unique = same_blocks s d.rest (xs ++ b ∷ ys) d.same_blocks.0 d.same_blocks.1 h.unique;
    } in
    subst (Keeps (xs ++ b ∷ ys)) (sym d.runs ∙ e) kept

Reach-Cache : {s t : Bcache} {l k : List ℕ} → Reach s l t k → Cache s l → Cache t k
Reach-Cache here h = h
Reach-Cache (next_step step rest) h = Reach-Cache rest (Step-Cache step h)

init_rounds_keeps :
    (k b : ℕ) (s : Bcache)
    → ((init_rounds k b s).cpu ≡ s.cpu)
      × ((init_rounds k b s).lock ≡ s.lock)
      × ((init_rounds k b s).dev ≡ s.dev)
unfolding init_rounds push_front
init_rounds_keeps zero b s = (refl, refl, refl)
init_rounds_keeps (suc k) b s = init_rounds_keeps k (b + 1) (push_front b s)

Alone-unused : (dev blockno : ℕ → ℕ) (a : ℕ) (l : List ℕ) → dev a ≡ 0 → Alone dev blockno a l
Alone-unused dev blockno a [] z = tt
Alone-unused dev blockno a (c ∷ l) z = (rw z refl, Alone-unused dev blockno a l z)

Unique-unused : (dev blockno : ℕ → ℕ) (l : List ℕ) → ((a : ℕ) → dev a ≡ 0) → Unique dev blockno l
Unique-unused dev blockno [] z = tt
Unique-unused dev blockno (a ∷ l) z =
    (Alone-unused dev blockno a l (z a), Unique-unused dev blockno l z)

binit-Cache :
    (s : Bcache) → IsSettled s.cpu → ((a : ℕ) → s.dev a ≡ 0) → Cache (binit s) (count_up nbuf 0 [])
unfolding binit
binit-Cache s settled zeroed =
    let start : Bcache = record s {
      lock = unlocked;
      prev = update s.prev nbuf nbuf;
      next = update s.next nbuf nbuf;
    } in
    let kept = init_rounds_keeps nbuf 0 start in
    record {
      free = record {
        settled = subst (λ c. IsSettled c) (sym kept.0) settled;
        unlocked = ap (λ l. l.locked) kept.1;
        unowned = ap (λ l. l.cpu) kept.1;
      };
      ring = (binit-Ring s).0;
      few = omega (arith, (binit-Ring s).1);
      unique =
          Unique-unused (binit s).dev (binit s).blockno (count_up nbuf 0 [])
            (λ a. ap (λ g. g a) kept.2 ∙ zeroed a);
    }

-- From `binit` on a zeroed array of buffers, whatever calls of `bget` and `brelse` follow each other:
-- the buffers form one ring, in the order of their use, and no block of a device but device 0 is
-- cached in two of them.
pub binit-Reach-Cache :
    {t : Bcache} {k : List ℕ} (s : Bcache)
    → IsSettled s.cpu
    → ((a : ℕ) → s.dev a ≡ 0)
    → Reach (binit s) (count_up nbuf 0 []) t k
    → Cache t k
binit-Reach-Cache s settled zeroed reach = Reach-Cache reach (binit-Cache s settled zeroed)
