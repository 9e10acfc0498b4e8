-- ===== src/Bio/Get.antt =====
-- `bget` of kernel/bio.c: the buffer that it returns.
use os_project_cs.Prelude.{
  ℕ, zero, suc, ◌+◌, ◌≡◌, refl, Bool, true, false, ◌&&◌, List, [], ◌∷◌, Option, none, some, arith,
  ◌==◌, update, sym, subst, ◌<◌, ◌≤◌, ◌%◌, ◌^◌, Bool-cases, inl, inr, length, ==_ne,
}
use os_project_cs.Outcome.{Outcome, ok, panic, Message}
use os_project_cs.Spinlock.Section.{IsFree, unlocked, after, acquire_free, release_held}
use os_project_cs.Bio.{Bcache, nbuf, find_cached, find_lru, bget}
use os_project_cs.Bio.Ring.{Walk, Back, Avoids, Ring}

-- The first of a list that passes the test.
pub data FirstSuch (test : ℕ → Bool) : List ℕ → Option ℕ → Type 0 where
  nothing : FirstSuch test [] none
  this : {a : ℕ} {l : List ℕ} → test a ≡ true → FirstSuch test (a ∷ l) (some a)
  later :
      {a : ℕ} {l : List ℕ} {o : Option ℕ}
      → test a ≡ false
      → FirstSuch test l o
      → FirstSuch test (a ∷ l) o

-- The list backwards.
abbrev pub onto : List ℕ → List ℕ → List ℕ
onto [] acc = acc
onto (a ∷ l) acc = onto l (a ∷ acc)

abbrev pub backwards : List ℕ → List ℕ
backwards l = onto l []

Walk-onto :
    (p : ℕ → ℕ) (x : ℕ) (l acc : List ℕ) (y z : ℕ)
    → Back p x l y
    → Walk p x acc z
    → Walk p y (onto l (x ∷ acc)) z
Walk-onto p x [] acc y z e w = (e, w)
Walk-onto p x (a ∷ l) acc y z (e, b) w = Walk-onto p a l (x ∷ acc) y z b (e, w)

Walk-backwards : (p : ℕ → ℕ) (l : List ℕ) (h : ℕ) → Back p h l h → Walk p h (backwards l) h
Walk-backwards p [] h w = w
Walk-backwards p (a ∷ l) h (e, b) = Walk-onto p a l [] h h b e

Avoids-onto : (a : ℕ) (l acc : List ℕ) → Avoids a l → Avoids a acc → Avoids a (onto l acc)
Avoids-onto a [] acc h i = i
Avoids-onto a (b ∷ l) acc (ne, h) i = Avoids-onto a l (b ∷ acc) h (ne, i)

length-onto : (l acc : List ℕ) → length (onto l acc) ≡ length l + length acc
length-onto [] acc = omega arith
length-onto (a ∷ l) acc = omega (arith, length-onto l (a ∷ acc))

abbrev pub caches : Bcache → ℕ → ℕ → ℕ → Bool
caches s d n b = (s.dev b == d) && (s.blockno b == n)

abbrev pub is_idle : Bcache → ℕ → Bool
is_idle s b = s.refcnt b == 0

cached_lem :
    (fuel x d n : ℕ) (s : Bcache) (l : List ℕ)
    → length l < fuel
    → Avoids nbuf l
    → Walk s.next x l nbuf
    → FirstSuch (caches s d n) l (find_cached fuel (s.next x) d n s)
unfolding find_cached
cached_lem zero x d n s l h a w = absurd (omega arith)
cached_lem (suc fuel) x d n s [] h a w = rw w nothing
cached_lem (suc fuel) x d n s (b ∷ l) h (ne, a) (e, w) =
    let off : (b == nbuf) ≡ false = ==_ne b nbuf (λ k. ne (sym k)) in
    elim (Bool-cases (caches s d n b)) [
      | inl yes_here ↦ rw (e, off, yes_here) (this yes_here)
      | inr not_here ↦
          rw (e, off, not_here) (later not_here (cached_lem fuel b d n s l (omega arith) a w))
    ]

lru_lem :
    (fuel x : ℕ) (s : Bcache) (l : List ℕ)
    → length l < fuel
    → Avoids nbuf l
    → Walk s.prev x l nbuf
    → FirstSuch (is_idle s) l (find_lru fuel (s.prev x) s)
unfolding find_lru
lru_lem zero x s l h a w = absurd (omega arith)
lru_lem (suc fuel) x s [] h a w = rw w nothing
lru_lem (suc fuel) x s (b ∷ l) h (ne, a) (e, w) =
    let off : (b == nbuf) ≡ false = ==_ne b nbuf (λ k. ne (sym k)) in
    elim (Bool-cases (is_idle s b)) [
      | inl yes_here ↦ rw (e, off, yes_here) (this yes_here)
      | inr not_here ↦ rw (e, off, not_here) (later not_here (lru_lem fuel b s l (omega arith) a w))
    ]

-- How `bget` ends.
pub data Got (d n : ℕ) (s : Bcache) (l : List ℕ) : Outcome (ℕ × Bcache) → Type 0 where
  hit :
      (b : ℕ)
      → FirstSuch (caches s d n) l (some b)
      → Got d n s l (
          ok (
            b,
            record s {
              cpu = after s.cpu;
              lock = unlocked;
              refcnt = update s.refcnt b ((s.refcnt b + 1) % 2 ^ 32);
            },
          ))
  recycled :
      (b : ℕ)
      → FirstSuch (caches s d n) l none
      → FirstSuch (is_idle s) (backwards l) (some b)
      → Got d n s l (
          ok (
            b,
            record s {
              cpu = after s.cpu;
              lock = unlocked;
              dev = update s.dev b d;
              blockno = update s.blockno b n;
              valid = update s.valid b false;
              refcnt = update s.refcnt b 1;
            },
          ))
  all_used :
      FirstSuch (caches s d n) l none
      → FirstSuch (is_idle s) (backwards l) none
      → Got d n s l (panic Message.no_buffers)

-- On a ring of at most all buffers, `bget` returns the first buffer that caches the block and counts
-- one user more; without one it takes over the least recently used buffer without users, and with
-- every buffer in use it panics. The two loops end, and the ring keeps its order.
pub bget-Got :
    (d n : ℕ) (s : Bcache) (l : List ℕ)
    → IsFree s.cpu s.lock
    → Ring s l
    → length l ≤ nbuf
    → Got d n s l (bget d n s)
unfolding bget
bget-Got d n s l f r few = go _ _ refl refl cached idle
  where
    cached : FirstSuch (caches s d n) l (find_cached (suc nbuf) (s.next nbuf) d n s)
    cached = cached_lem (suc nbuf) nbuf d n s l (omega arith) r.distinct.0 r.forwards

    idle : FirstSuch (is_idle s) (backwards l) (find_lru (suc nbuf) (s.prev nbuf) s)
    idle =
        lru_lem (suc nbuf) nbuf s (backwards l) (omega (arith, length-onto l []))
          (Avoids-onto nbuf l [] r.distinct.0 tt) (Walk-backwards s.prev l nbuf r.backwards)

    go :
        (o o' : Option ℕ)
        → find_cached (suc nbuf) (s.next nbuf) d n s ≡ o
        → find_lru (suc nbuf) (s.prev nbuf) s ≡ o'
        → FirstSuch (caches s d n) l (find_cached (suc nbuf) (s.next nbuf) d n s)
        → FirstSuch (is_idle s) (backwards l) (find_lru (suc nbuf) (s.prev nbuf) s)
        → Got d n s l (bget d n s)
    go (some b) o' e e' c i =
        rw (acquire_free s.cpu s.lock f.unlocked, e, release_held s.cpu f.settled)
          (hit b (subst (FirstSuch (caches s d n) l) e c))
    go none (some b) e e' c i =
        rw (acquire_free s.cpu s.lock f.unlocked, e, e', release_held s.cpu f.settled)
          (recycled b (subst (FirstSuch (caches s d n) l) e c)
            (subst (FirstSuch (is_idle s) (backwards l)) e' i))
    go none none e e' c i =
        rw (acquire_free s.cpu s.lock f.unlocked, e, e')
          (all_used (subst (FirstSuch (caches s d n) l) e c)
            (subst (FirstSuch (is_idle s) (backwards l)) e' i))
