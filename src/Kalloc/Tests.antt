-- ===== src/Kalloc/Tests.antt =====
-- Runs of kernel/kalloc.c at concrete states.
use os_project_cs.Prelude.{ℕ, refl, true, false, List, [], ◌∷◌, none, arith, ◌==◌, if◌then◌else◌}
use os_project_cs.Spinlock.Section.{IsFree}
use os_project_cs.Kalloc.{Kmem}
use os_project_cs.Kalloc.FreeList.{Inv}
use os_project_cs.Kalloc.Ownership.{Request, Serves, serve_all, serve_all-Serves}

-- The kernel ends four pages before the end of memory.
abbrev kernel_end : ℕ
kernel_end = 0x87ffc000

abbrev first : ℕ
first = 0x87ffd000

abbrev second : ℕ
second = 0x87ffe000

abbrev third : ℕ
third = 0x87fff000

-- Two pages are free, `second` first.
abbrev two_free : Kmem
two_free = record {
  cpu = record { id = 0; noff = 0; intena = false; intr = true };
  lock = record { locked = false; cpu = none };
  freelist = second;
  mem = λ a. if a == second then third else 0;
}

is_free : IsFree two_free.cpu two_free.lock
is_free = record { settled = refl; unlocked = refl; unowned = refl }

two_free-Inv : Inv kernel_end two_free (second ∷ third ∷ [])
two_free-Inv = record {
  free = is_free;
  placed = omega arith;
  chain = (refl, omega arith, (refl, omega arith, refl));
  distinct = omega arith;
}

abbrev requests : List Request
requests = Request.take ∷ Request.write 0 8 77 ∷ Request.take ∷ Request.take ∷ Request.give 1 ∷ []

serve_all-Serves_example :
    Serves kernel_end 2 (serve_all kernel_end requests (record { kmem = two_free; owned = [] }))
serve_all-Serves_example =
    serve_all-Serves kernel_end 2 requests (record { kmem = two_free; owned = [] })
      (record {
        pages = second ∷ third ∷ [];
        inv = two_free-Inv;
        owned = tt;
        distinct = tt;
        conserved = refl;
      })
