-- ===== src/Kalloc/FreeList.antt =====
-- The free list of `kmem` as a chain of pages through memory.
use os_project_cs.Prelude.{
  ℕ, ◌+◌, ◌%◌, ◌≤◌, ◌<◌, ◌≡◌, ◌≢◌, ◌⊎◌, inl, inr, List, [], ◌∷◌, Bool, false, arith, dec_lt, ◌==◌,
  ◌||◌,
}
use os_project_cs.Kalloc.{pgsize, phystop, Kmem}
use os_project_cs.Spinlock.Section.{IsFree}

-- A page that `kfree` accepts: aligned, after the kernel and in physical memory.
pub record IsPage (kernel_end p : ℕ) : Type 0 where
  pub aligned : p % pgsize ≡ 0
  pub above : kernel_end ≤ p
  pub below : p < phystop

-- `p` is none of the pages of the list.
abbrev pub Fresh : ℕ → List ℕ → Type 0
Fresh p [] = Unit
Fresh p (q ∷ ps) = (p ≢ q) × Fresh p ps

abbrev pub Distinct : List ℕ → Type 0
Distinct [] = Unit
Distinct (p ∷ ps) = Fresh p ps × Distinct ps

-- The word at each page is the address of the next, and 0 ends the list.
abbrev pub Chain : ℕ → (ℕ → ℕ) → ℕ → List ℕ → Type 0
Chain e m h [] = h ≡ 0
Chain e m h (p ∷ ps) = (h ≡ p) × IsPage e p × Chain e m (m p) ps

-- Memory unchanged outside the page at `pa`.
abbrev pub SameOutside : ℕ → (ℕ → ℕ) → (ℕ → ℕ) → Type 0
SameOutside pa m m' = (a : ℕ) → (a < pa) ⊎ (pa + pgsize ≤ a) → m' a ≡ m a

pub outside_of_ne : {e p pa : ℕ} → IsPage e p → IsPage e pa → pa ≢ p → (p < pa) ⊎ (pa + pgsize ≤ p)
outside_of_ne {e} {p} {pa} h k ne = elim (dec_lt p pa) [ yes l ↦ inl l | no l ↦ inr (omega arith) ]

-- A change inside one page leaves a chain of other pages as it was.
pub Chain-frame :
    (e pa : ℕ) (m m' : ℕ → ℕ) (h : ℕ) (ps : List ℕ)
    → IsPage e pa
    → Fresh pa ps
    → SameOutside pa m m'
    → Chain e m h ps
    → Chain e m' h ps
Chain-frame e pa m m' h [] page fresh same c = c
Chain-frame e pa m m' h (p ∷ ps) page fresh same c = (
  c.0,
  c.1,
  rw (same p (outside_of_ne c.1 page fresh.0))
      (Chain-frame e pa m m' (m p) ps page fresh.1 same c.2),
)

-- The state of the allocator between calls: the lock is free, and the free pages are the list.
pub record Inv (e : ℕ) (s : Kmem) (ps : List ℕ) : Type 0 where
  pub free : IsFree s.cpu s.lock
  pub placed : 0 < e
  pub chain : Chain e s.mem s.freelist ps
  pub distinct : Distinct ps

abbrev pub contains : List ℕ → ℕ → Bool
contains [] q = false
contains (p ∷ ps) q = (q == p) || contains ps q

pub Fresh-contains : (q : ℕ) (ps : List ℕ) → contains ps q ≡ false → Fresh q ps
Fresh-contains q [] h = tt
Fresh-contains q (p ∷ ps) h = (ground arith, Fresh-contains q ps (ground arith))
