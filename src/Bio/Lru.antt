-- ===== src/Bio/Lru.antt =====
-- The order of the ring of kernel/bio.c: `binit`, and the move to the front of `brelse`.
use os_project_cs.Prelude.{
  ℕ, ◌+◌, ◌-◌, ◌≡◌, ◌≢◌, refl, ◌∙◌, true, false, List, [], ◌∷◌, ◌++◌, arith, ◌==◌, update, sym, ap,
  subst, ◌<◌, ◌%◌, ◌^◌, Bool-cases, inl, inr,
}
use os_project_cs.Outcome.{ok}
use os_project_cs.Spinlock.Section.{IsFree, unlocked, after, acquire_free, release_held}
use os_project_cs.Bio.{Bcache, nbuf, push_front, unlink, brelse}
use os_project_cs.Bio.Ring.{
  Walk, Back, Avoids, Distinct, Ring, update_at, update_off, Agrees-update, Agrees-trans, Walk-same,
  Back-agrees, Walk-first, last, first, Walk-at, Back-at, Walk-without, Back-without,
  Distinct-without,
}

update_self : (f : ℕ → ℕ) (a b : ℕ) → update f a (f b) b ≡ f b
update_self f a b = elim (Bool-cases (a == b)) [ inl e ↦ rw e refl | inr e ↦ rw e refl ]

unlink-Ring :
    (s : Bcache) (xs : List ℕ) (b : ℕ) (ys : List ℕ)
    → Ring s (xs ++ b ∷ ys)
    → Ring (unlink b s) (xs ++ ys)
unfolding unlink
unlink-Ring s xs b ys r =
    let after_b : s.next b ≡ first ys nbuf = Walk-at s.next nbuf xs b ys nbuf r.forwards in
    let before_b : s.prev b ≡ last nbuf xs = Back-at s.prev nbuf xs b ys nbuf r.backwards in
    let kept = update_self s.prev (s.next b) b in
    record {
      forwards =
          subst (λ k. Walk (update s.next k (s.next b)) nbuf (xs ++ ys) nbuf)
            (sym (kept ∙ before_b)) (Walk-without s.next nbuf xs b ys nbuf r.distinct r.forwards);
      backwards =
          subst (λ k. Back (update s.prev k (s.prev b)) nbuf (xs ++ ys) nbuf) (sym after_b)
            (subst (λ k. Back (update s.prev (first ys nbuf) k) nbuf (xs ++ ys) nbuf) (sym before_b)
              (Back-without s.prev nbuf xs b ys nbuf r.distinct.1 r.distinct.0 r.backwards));
      distinct = Distinct-without (nbuf ∷ xs) b ys r.distinct;
    }

-- The backward links after `b` is put before the list.
front-Back :
    (p : ℕ → ℕ) (b h : ℕ) (l : List ℕ)
    → Avoids b l
    → h ≢ b
    → Distinct (h ∷ l)
    → Back p h l h
    → Back (update (update p b h) (first l h) b) h (b ∷ l) h
front-Back p b h [] fresh ne d w =
    (update_off (update p b h) h b b ne ∙ update_at p b h, update_at (update p b h) h b)
front-Back p b h (c ∷ m) (bc, fresh) ne ((hc, hm), (cm, d)) (e, w) =
    let p1 : ℕ → ℕ = update p b h in
    let p2 : ℕ → ℕ = update p1 c b in
    (
      update_off p1 c b b (λ k. bc (sym k)) ∙ update_at p b h,
      (
        update_at p1 c b,
        Back-agrees p p2 c m h
            (Agrees-trans p p1 p2 m (Agrees-update p b h m fresh) (Agrees-update p1 c b m cm))
            (update_off p1 c b h (λ k. hc (sym k)) ∙ update_off p b h h (λ k. ne (sym k))) w,
      ),
    )

pub push_front-Ring :
    (s : Bcache) (b : ℕ) (l : List ℕ)
    → Avoids b l
    → nbuf ≢ b
    → Ring s l
    → Ring (push_front b s) (b ∷ l)
unfolding push_front
push_front-Ring s b l fresh ne r =
    let next1 : ℕ → ℕ = update s.next b (s.next nbuf) in
    let next2 : ℕ → ℕ = update next1 nbuf b in
    let head : next1 nbuf ≡ first l nbuf =
      update_off s.next b (s.next nbuf) nbuf (λ k. ne (sym k))
      ∙ Walk-first s.next nbuf l nbuf r.forwards in
    record {
      forwards = (
        update_at next1 nbuf b,
        Walk-same s.next next2 nbuf b l nbuf
            (update_off next1 nbuf b b ne ∙ update_at s.next b (s.next nbuf))
            (Agrees-trans s.next next1 next2 l (Agrees-update s.next b (s.next nbuf) l fresh)
              (Agrees-update next1 nbuf b l r.distinct.0))
            r.forwards,
      );
      backwards =
          subst (λ k. Back (update (update s.prev b nbuf) k b) nbuf (b ∷ l) nbuf) (sym head)
            (front-Back s.prev b nbuf l fresh ne r.distinct r.backwards);
      distinct = ((ne, r.distinct.0), (fresh, r.distinct.1));
    }

-- How `brelse` leaves a buffer that stands between `xs` and `ys`.
pub record Dropped (b : ℕ) (s : Bcache) (xs ys : List ℕ) : Type 0 where
  pub rest : Bcache
  pub runs : brelse b s ≡ ok rest
  pub unused_first : s.refcnt b ≡ 1 → Ring rest (b ∷ xs ++ ys)
  pub used_stays : 1 < s.refcnt b → Ring rest (xs ++ b ∷ ys)
  pub count : rest.refcnt ≡ update s.refcnt b (s.refcnt b - 1)
  pub same_blocks : (rest.dev ≡ s.dev) × (rest.blockno ≡ s.blockno) × (rest.valid ≡ s.valid)
  pub free : IsFree rest.cpu rest.lock

Avoids-middle : (xs : List ℕ) (b : ℕ) (ys : List ℕ) → Distinct (xs ++ b ∷ ys) → Avoids b (xs ++ ys)
Avoids-middle [] b ys (a, d) = a
Avoids-middle (x ∷ xs) b ys (a, d) =
    ((λ e. Avoids-head x xs b ys a (sym e)), Avoids-middle xs b ys d)
  where
    Avoids-head : (x : ℕ) (xs : List ℕ) (b : ℕ) (ys : List ℕ) → Avoids x (xs ++ b ∷ ys) → x ≢ b
    Avoids-head x [] b ys (ne, h) = ne
    Avoids-head x (c ∷ xs) b ys (ne, h) = Avoids-head x xs b ys h

moved_front :
    (s : Bcache) (xs : List ℕ) (b : ℕ) (ys : List ℕ)
    → Ring s (xs ++ b ∷ ys)
    → Ring (push_front b (unlink b s)) (b ∷ xs ++ ys)
moved_front s xs b ys r =
    push_front-Ring (unlink b s) b (xs ++ ys) (Avoids-middle xs b ys r.distinct.1)
      (λ e. (Avoids-middle (nbuf ∷ xs) b ys r.distinct).0 (sym e)) (unlink-Ring s xs b ys r)

-- A ring stays one under changes of the other fields.
pub same_links :
    {s t : Bcache} (l : List ℕ) → t.next ≡ s.next → t.prev ≡ s.prev → Ring s l → Ring t l
same_links l e f r = record {
  forwards = subst (λ g. Walk g nbuf l nbuf) (sym e) r.forwards;
  backwards = subst (λ g. Back g nbuf l nbuf) (sym f) r.backwards;
  distinct = r.distinct;
}

-- `brelse` of a buffer that is in use takes one from its count. The last user puts the buffer to the
-- front of the ring, with the order of the others kept; otherwise the ring stays. No buffer's block
-- changes, and the lock of the cache is free again.
pub brelse-Dropped :
    (b : ℕ) (s : Bcache) (xs ys : List ℕ)
    → IsFree s.cpu s.lock
    → Ring s (xs ++ b ∷ ys)
    → 0 < s.refcnt b
    → s.refcnt b < 2 ^ 32
    → Dropped b s xs ys
unfolding brelse push_front unlink
brelse-Dropped b s xs ys f r used bounded = elim (Bool-cases (s.refcnt b - 1 == 0)) [
  | inl unused ↦
      let z : (less.refcnt b == 0) ≡ true = rw (update_at s.refcnt b n, minus) unused in
      record {
        rest = record (push_front b (unlink b less)) { cpu = after s.cpu; lock = unlocked };
        runs = rw (acquire_free s.cpu s.lock f.unlocked, release_held s.cpu f.settled, z) refl;
        unused_first = λ e. same_links (b ∷ xs ++ ys) refl refl (moved_front less xs b ys ring);
        used_stays = λ h. absurd (ground arith);
        count = ap (update s.refcnt b) minus;
        same_blocks = (refl, refl, refl);
        free = record { settled = f.settled; unlocked = refl; unowned = refl };
      }
  | inr still ↦
      let z : (less.refcnt b == 0) ≡ false = rw (update_at s.refcnt b n, minus) still in
      record {
        rest = record less { cpu = after s.cpu; lock = unlocked };
        runs = rw (acquire_free s.cpu s.lock f.unlocked, release_held s.cpu f.settled, z) refl;
        unused_first = λ e. absurd (ground arith);
        used_stays = λ h. same_links (xs ++ b ∷ ys) refl refl ring;
        count = ap (update s.refcnt b) minus;
        same_blocks = (refl, refl, refl);
        free = record { settled = f.settled; unlocked = refl; unowned = refl };
      }
]
  where
    n : ℕ
    n = (s.refcnt b + 2 ^ 32 - 1) % 2 ^ 32

    minus : n ≡ s.refcnt b - 1
    minus = omega arith

    less : Bcache
    less = record s { refcnt = update s.refcnt b n }

    ring : Ring less (xs ++ b ∷ ys)
    ring = same_links (xs ++ b ∷ ys) refl refl r
