-- ===== src/Kalloc/Init.antt =====
-- `kinit` and `freerange`: the pages that the allocator starts with.
use os_project_cs.Prelude.{
  ℕ, zero, suc, ◌+◌, ◌*◌, ◌/◌, ◌%◌, ◌≤◌, ◌<◌, ◌≡◌, inl, inr, refl, ◌↔◌, Bool-cases, List, [], ◌∷◌,
  true, arith, leb,
}
use os_project_cs.Outcome.{Outcome, ok}
use os_project_cs.Spinlock.{initlock}
use os_project_cs.Spinlock.Nesting.{IsSettled}
use os_project_cs.Spinlock.Section.{unlocked}
use os_project_cs.Kalloc.{pgsize, phystop, Kmem, pg_round_up, kfree, free_pages, freerange, kinit}
use os_project_cs.Kalloc.FreeList.{IsPage, Fresh, Fresh-contains, contains, Inv}
use os_project_cs.Kalloc.Alloc.{kfree_page}

-- The free list holds exactly the pages below `p`.
pub record Covers (e p : ℕ) (s : Kmem) : Type 0 where
  pub pages : List ℕ
  pub inv : Inv e s pages
  pub exact : (q : ℕ) → (contains pages q ≡ true) ↔ (IsPage e q × (q < p))

abbrev pub AllFree : ℕ → Outcome Kmem → Type 0
AllFree e r = (s : Kmem) × (r ≡ ok s) × Covers e phystop s

-- One more page makes the pages below the next.
Covers-kfree :
    (e p : ℕ) (s : Kmem) (c : Covers e p s)
    → IsPage e p
    → (s' : Kmem) × (kfree e p s ≡ ok s') × Covers e (p + pgsize) s'
Covers-kfree e p s c page =
    let fresh : Fresh p c.pages = Fresh-contains p c.pages (ground (arith, c.exact p)) in
    let f = kfree_page e p s c.pages c.inv page fresh in
    (
      f.next,
      f.runs,
      record { pages = p ∷ c.pages; inv = f.inv; exact = λ q. ground (arith, c.exact q) },
    )

free_pages-AllFree :
    (e n p : ℕ) (s : Kmem)
    → p % pgsize ≡ 0
    → e ≤ p
    → phystop < p + n * pgsize
    → Covers e p s
    → AllFree e (free_pages e n p phystop s)
unfolding free_pages
free_pages-AllFree e zero p s al ab fuel c =
    (s, refl, record { pages = c.pages; inv = c.inv; exact = λ q. ground (arith, c.exact q) })
free_pages-AllFree e (suc n) p s al ab fuel c = elim (Bool-cases (leb (p + pgsize) phystop)) [
  | inl more ↦
      let (s', runs, c') = Covers-kfree e p s c (ground arith) in
      rw (more, runs)
        (free_pages-AllFree e n (p + pgsize) s' (omega arith) (omega arith) (omega arith) c')
  | inr done ↦
      rw done
        (s, refl, record { pages = c.pages; inv = c.inv; exact = λ q. ground (arith, c.exact q) })
]

-- From an empty free list and a hart with balanced `push_off`, `kinit` succeeds: the lock is free,
-- and the free list is a chain through memory of distinct pages, which are exactly the aligned pages
-- from the end of the kernel to the end of memory.
pub kinit_lem :
    (e : ℕ) (s : Kmem)
    → 0 < e
    → e ≤ phystop
    → IsSettled s.cpu
    → s.freelist ≡ 0
    → AllFree e (kinit e s)
unfolding kinit freerange initlock
kinit_lem e s pos small settled empty =
    free_pages-AllFree e (suc (phystop / pgsize)) (pg_round_up e) (record s { lock = unlocked })
      (omega arith) (omega arith) (omega arith)
      (record {
        pages = [];
        inv = record {
          free = record { settled = settled; unlocked = refl; unowned = refl };
          placed = pos;
          chain = empty;
          distinct = tt;
        };
        exact = λ q. ground arith;
      })
