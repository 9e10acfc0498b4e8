-- ===== src/Kalloc/Ownership.antt =====
-- The pages of a client of `kalloc` and `kfree`: any sequence of calls, with writes to the pages
-- that the client holds in between.
use os_project_cs.Prelude.{
  ℕ, zero, suc, ◌+◌, ◌%◌, ◌≡◌, ◌≢◌, inl, inr, refl, Option-cases, ==_ne, List, [], ◌∷◌, none, some,
  arith, ◌==◌, if◌then◌else◌, update, get_elem?, length, sym, ap,
}
use os_project_cs.Outcome.{Outcome, ok, ◌>>=◌}
use os_project_cs.Kalloc.{pgsize, Kmem, kfree, kalloc}
use os_project_cs.Kalloc.FreeList.{IsPage, Fresh, Distinct, SameOutside, Chain-frame, Inv}
use os_project_cs.Kalloc.Alloc.{kfree_page, kalloc_page, kalloc_none}

-- `take` calls `kalloc`; `give i` frees the client's page number `i`; `write i k v` stores a word
-- at offset `k` of that page.
pub data Request : Type 0 where
  take : Request
  give : ℕ → Request
  write : ℕ → ℕ → ℕ → Request

pub record Client : Type 0 where
  pub kmem : Kmem
  pub owned : List ℕ

abbrev pub remove : ℕ → List ℕ → List ℕ
remove i [] = []
remove zero (p ∷ ps) = ps
remove (suc i) (p ∷ ps) = p ∷ remove i ps

abbrev pub granted : ℕ → List ℕ → List ℕ
granted p owned = if p == 0 then owned else p ∷ owned

unfoldable pub serve : ℕ → Request → Client → Outcome Client
serve e take c = do (p, k) ← kalloc c.kmem; ok (record { kmem = k; owned = granted p c.owned })
serve e (give i) c = elim (get_elem? c.owned i) [
  | none ↦ ok c
  | some p ↦ do k ← kfree e p c.kmem; ok (record { kmem = k; owned = remove i c.owned })
]
serve e (write i k v) c = elim (get_elem? c.owned i) [
  | none ↦ ok c
  | some p ↦ ok (record c { kmem = record (c.kmem) { mem = update c.kmem.mem (p + k % pgsize) v } })
]

unfoldable pub serve_all : ℕ → List Request → Client → Outcome Client
serve_all e [] c = ok c
serve_all e (r ∷ rs) c = do c' ← serve e r c; serve_all e rs c'

-- Pages that the client holds: real pages, none of them free.
abbrev pub Owned : ℕ → List ℕ → List ℕ → Type 0
Owned e ps [] = Unit
Owned e ps (o ∷ os) = IsPage e o × Fresh o ps × Owned e ps os

pub record Sound (e total : ℕ) (c : Client) : Type 0 where
  pub pages : List ℕ
  pub inv : Inv e c.kmem pages
  pub owned : Owned e pages c.owned
  pub distinct : Distinct c.owned
  pub conserved : length pages + length c.owned ≡ total

Owned-tail : (e p : ℕ) (ps os : List ℕ) → Owned e (p ∷ ps) os → Owned e ps os
Owned-tail e p ps [] h = tt
Owned-tail e p ps (o ∷ os) h = (h.0, h.1.1, Owned-tail e p ps os h.2)

Owned-Fresh : (e p : ℕ) (ps os : List ℕ) → Owned e (p ∷ ps) os → Fresh p os
Owned-Fresh e p ps [] h = tt
Owned-Fresh e p ps (o ∷ os) h = (λ q. h.1.0 (sym q), Owned-Fresh e p ps os h.2)

Owned-cons : (e p : ℕ) (ps os : List ℕ) → Fresh p os → Owned e ps os → Owned e (p ∷ ps) os
Owned-cons e p ps [] f h = tt
Owned-cons e p ps (o ∷ os) f h = (h.0, (λ q. f.0 (sym q), h.1), Owned-cons e p ps os f.1 h.2)

Owned-remove : (e i : ℕ) (ps os : List ℕ) → Owned e ps os → Owned e ps (remove i os)
Owned-remove e i ps [] h = tt
Owned-remove e zero ps (o ∷ os) h = h.2
Owned-remove e (suc i) ps (o ∷ os) h = (h.0, h.1, Owned-remove e i ps os h.2)

Fresh-remove : (p i : ℕ) (os : List ℕ) → Fresh p os → Fresh p (remove i os)
Fresh-remove p i [] h = tt
Fresh-remove p zero (o ∷ os) h = h.1
Fresh-remove p (suc i) (o ∷ os) h = (h.0, Fresh-remove p i os h.1)

Fresh-get_elem? : (q i : ℕ) (os : List ℕ) {p : ℕ} → Fresh q os → get_elem? os i ≡ some p → q ≢ p
Fresh-get_elem? q i [] f h = cc
Fresh-get_elem? q zero (o ∷ os) f h = ground (arith, f.0)
Fresh-get_elem? q (suc i) (o ∷ os) f h = Fresh-get_elem? q i os f.1 h

-- What is known of the page at a place of the client's list.
record Given (e i p : ℕ) (ps os : List ℕ) : Type 0 where
  page : IsPage e p
  fresh : Fresh p ps
  apart : Fresh p (remove i os)
  distinct : Distinct (remove i os)
  shorter : suc (length (remove i os)) ≡ length os

give-Given :
    (e i p : ℕ) (ps os : List ℕ)
    → Owned e ps os
    → Distinct os
    → get_elem? os i ≡ some p
    → Given e i p ps os
give-Given e i p ps [] o d h = absurd (cc)
give-Given e zero p ps (x ∷ os) o d h =
    let q : x ≡ p = cc in
    record {
      page = rw (← q) (o.0);
      fresh = rw (← q) (o.1);
      apart = rw (← q) (d.0);
      distinct = d.1;
      shorter = refl;
    }
give-Given e (suc i) p ps (x ∷ os) o d h =
    let g = give-Given e i p ps os o.2 d.1 h in
    record {
      page = g.page;
      fresh = g.fresh;
      apart = (λ q. Fresh-get_elem? x i os d.0 h (sym q), g.apart);
      distinct = (Fresh-remove x i os d.0, g.distinct);
      shorter = ap suc g.shorter;
    }

abbrev pub Serves : ℕ → ℕ → Outcome Client → Type 0
Serves e total r = (c : Client) × (r ≡ ok c) × Sound e total c

take-Serves : (e total : ℕ) (c : Client) → Sound e total c → Serves e total (serve e take c)
unfolding serve
take-Serves e total c s = go s.pages s.inv s.owned s.conserved
  where
    go :
        (ps : List ℕ)
        → Inv e c.kmem ps
        → Owned e ps c.owned
        → length ps + length c.owned ≡ total
        → Serves e total (serve e take c)
    go [] inv o n =
        let t = kalloc_none e c.kmem inv in
        (
          record { kmem = t.next; owned = c.owned },
          rw (t.runs),
          record { pages = []; inv = t.inv; owned = o; distinct = s.distinct; conserved = n },
        )
    go (p ∷ ps) inv o n =
        let t = kalloc_page e p c.kmem ps inv in
        let pos = inv.placed in
        let page = t.page in
        let rest = Owned-tail e p ps c.owned o in
        (
          record { kmem = t.next; owned = p ∷ c.owned },
          rw (t.runs, ==_ne p 0 (omega arith)),
          record {
            pages = ps;
            inv = t.inv;
            owned = (t.page, t.fresh, rest);
            distinct = (Owned-Fresh e p ps c.owned o, s.distinct);
            conserved = omega arith;
          },
        )

give-Serves : (e total i : ℕ) (c : Client) → Sound e total c → Serves e total (serve e (give i) c)
unfolding serve
give-Serves e total i c s = elim (Option-cases (get_elem? c.owned i)) [
  | inl out ↦ rw (out, serve) (c, refl, s)
  | inr (p, found) ↦
      let g = give-Given e i p s.pages c.owned s.owned s.distinct found in
      let f = kfree_page e p c.kmem s.pages s.inv g.page g.fresh in
      let n = s.conserved in
      let l = g.shorter in
      (
        record { kmem = f.next; owned = remove i c.owned },
        rw (found, serve, f.runs),
        record {
          pages = p ∷ s.pages;
          inv = f.inv;
          owned =
              Owned-cons e p s.pages (remove i c.owned) g.apart
                (Owned-remove e i s.pages c.owned s.owned);
          distinct = g.distinct;
          conserved = omega arith;
        },
      )
]

write-Serves :
    (e total i k v : ℕ) (c : Client) → Sound e total c → Serves e total (serve e (write i k v) c)
unfolding serve
write-Serves e total i k v c s = elim (Option-cases (get_elem? c.owned i)) [
  | inl out ↦ rw (out, serve) (c, refl, s)
  | inr (p, found) ↦
      let g = give-Given e i p s.pages c.owned s.owned s.distinct found in
      let stored : ℕ → ℕ = update c.kmem.mem (p + k % pgsize) v in
      let same : SameOutside p c.kmem.mem stored = λ a h. ground arith in
      (
        record c { kmem = record (c.kmem) { mem = stored } },
        rw (found, serve),
        record {
          pages = s.pages;
          inv = record {
            free = s.inv.free;
            placed = s.inv.placed;
            chain =
                Chain-frame e p c.kmem.mem stored c.kmem.freelist s.pages g.page g.fresh same
                  s.inv.chain;
            distinct = s.inv.distinct;
          };
          owned = s.owned;
          distinct = s.distinct;
          conserved = s.conserved;
        },
      )
]

serve-Serves :
    (e total : ℕ) (r : Request) (c : Client) → Sound e total c → Serves e total (serve e r c)
serve-Serves e total take c s = take-Serves e total c s
serve-Serves e total (give i) c s = give-Serves e total i c s
serve-Serves e total (write i k v) c s = write-Serves e total i k v c s

-- However a client calls `kalloc`, `kfree` on pages that it got, and writes to those pages, no call
-- panics or waits, the free list stays a chain of distinct free pages, the pages that the client
-- holds are distinct pages and none of them is free, and no page is lost.
pub serve_all-Serves :
    (e total : ℕ) (rs : List Request) (c : Client)
    → Sound e total c
    → Serves e total (serve_all e rs c)
unfolding serve_all
serve_all-Serves e total [] c s = (c, refl, s)
serve_all-Serves e total (r ∷ rs) c s =
    let (c', runs, s') = serve-Serves e total r c s in rw runs (serve_all-Serves e total rs c' s')
