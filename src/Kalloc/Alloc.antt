-- ===== src/Kalloc/Alloc.antt =====
-- `kfree` and `kalloc` on a free list, on every branch.
use os_project_cs.Prelude.{
  ℕ, ◌≡◌, inl, inr, refl, ◌↔◌, Bool-cases, ==_refl, ==_ne, List, [], ◌∷◌, false, arith, update,
}
use os_project_cs.Outcome.{Message, ok, panic}
use os_project_cs.Spinlock.Section.{
  IsFree, acquire_free, release_held, unlocked, after, after-IsFree,
}
use os_project_cs.Kalloc.{Kmem, memset_page, refused, kfree, kalloc}
use os_project_cs.Kalloc.FreeList.{IsPage, Fresh, SameOutside, Chain-frame, Inv}

pub record Freed (e pa : ℕ) (s : Kmem) (ps : List ℕ) : Type 0 where
  pub next : Kmem
  pub runs : kfree e pa s ≡ ok next
  pub inv : Inv e next (pa ∷ ps)
  pub same : SameOutside pa s.mem next.mem

linked_same :
    (pa : ℕ) (s : Kmem) → SameOutside pa s.mem (update (memset_page s.mem pa 1) pa s.freelist)
linked_same pa s a h = ground arith

refused_iff : (e pa : ℕ) → (refused e pa ≡ false) ↔ IsPage e pa
refused_iff e pa = ground arith

-- Freeing a page that is not free succeeds, puts it in front of the free list, keeps the invariant
-- (the lock is free again), and changes no memory outside the page.
pub kfree_page :
    (e pa : ℕ) (s : Kmem) (ps : List ℕ) → Inv e s ps → IsPage e pa → Fresh pa ps → Freed e pa s ps
unfolding kfree
kfree_page e pa s ps inv page fresh = record {
  next = record {
    cpu = after s.cpu;
    lock = unlocked;
    freelist = pa;
    mem = update (memset_page s.mem pa 1) pa s.freelist;
  };
  runs = rw (
    (refused_iff e pa).1 page,
    acquire_free s.cpu s.lock inv.free.unlocked,
    release_held s.cpu inv.free.settled,
  );
  inv = record {
    free = after-IsFree s.cpu inv.free.settled;
    placed = inv.placed;
    chain = (
      refl,
      page,
      rw (==_refl pa)
          (Chain-frame e pa s.mem _ s.freelist ps page fresh (linked_same pa s) inv.chain),
    );
    distinct = (fresh, inv.distinct);
  };
  same = linked_same pa s;
}

-- `kfree` panics exactly on what is no page: an address that is not aligned, that lies before the
-- end of the kernel, or that lies at or after the end of memory.
pub kfree_panics :
    (e pa : ℕ) (s : Kmem)
    → IsFree s.cpu s.lock
    → (kfree e pa s ≡ panic Message.kfree) ↔ (¬ IsPage e pa)
unfolding kfree
kfree_panics e pa s f = elim (Bool-cases (refused e pa)) [
  | inl bad ↦ (λ _ page. cc ((refused_iff e pa).1 page), λ _. rw bad)
  | inr good ↦ (
    λ h. absurd (cc (acquire_free s.cpu s.lock f.unlocked, release_held s.cpu f.settled)),
    λ none_such. absurd (none_such ((refused_iff e pa).0 good)),
  )
]

-- With no page free, `kalloc` returns the null pointer, changes no memory and keeps the invariant.
pub record Exhausted (e : ℕ) (s : Kmem) : Type 0 where
  pub next : Kmem
  pub runs : kalloc s ≡ ok (0, next)
  pub inv : Inv e next []
  pub same : next.mem ≡ s.mem

pub kalloc_none : (e : ℕ) (s : Kmem) → Inv e s [] → Exhausted e s
unfolding kalloc
kalloc_none e s inv = record {
  next = record { cpu = after s.cpu; lock = unlocked; freelist = 0; mem = s.mem };
  runs =
      rw (
        acquire_free s.cpu s.lock inv.free.unlocked,
        release_held s.cpu inv.free.settled,
        inv.chain,
      );
  inv = record {
    free = after-IsFree s.cpu inv.free.settled;
    placed = inv.placed;
    chain = refl;
    distinct = tt;
  };
  same = refl;
}

pub record Taken (e p : ℕ) (s : Kmem) (ps : List ℕ) : Type 0 where
  pub next : Kmem
  pub runs : kalloc s ≡ ok (p, next)
  pub inv : Inv e next ps
  pub page : IsPage e p
  pub fresh : Fresh p ps
  pub same : SameOutside p s.mem next.mem

-- With pages free, `kalloc` returns the first: a page that is not null and no longer free. It keeps
-- the invariant (the lock is free again) and changes no memory outside that page.
pub kalloc_page : (e p : ℕ) (s : Kmem) (ps : List ℕ) → Inv e s (p ∷ ps) → Taken e p s ps
unfolding kalloc
kalloc_page e p s ps inv = record {
  next = record {
    cpu = after s.cpu;
    lock = unlocked;
    freelist = s.mem p;
    mem = memset_page s.mem p 5;
  };
  runs = rw (
    acquire_free s.cpu s.lock inv.free.unlocked,
    release_held s.cpu inv.free.settled,
    inv.chain.0,
    ==_ne p 0 (omega arith),
  );
  inv = record {
    free = after-IsFree s.cpu inv.free.settled;
    placed = inv.placed;
    chain = Chain-frame e p s.mem _ (s.mem p) ps inv.chain.1 inv.distinct.0 filled_same inv.chain.2;
    distinct = inv.distinct.1;
  };
  page = inv.chain.1;
  fresh = inv.distinct.0;
  same = filled_same;
}
  where
    filled_same : SameOutside p s.mem (memset_page s.mem p 5)
    filled_same a h = ground arith
