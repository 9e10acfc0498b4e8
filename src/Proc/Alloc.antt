-- ===== src/Proc/Alloc.antt =====
-- `allocproc` of kernel/proc.c: the slot that it takes, and what it leaves there.
use os_project_cs.Prelude.{
  ℕ, suc, ◌+◌, ◌%◌, ◌^◌, ◌≡◌, refl, ◌∙◌, true, false, List, [], ◌∷◌, ◌++◌, Option, none, some, inl,
  inr, arith, Bool-cases, get_elem?, set, length, sym, ap, subst,
}
use os_project_cs.Outcome.{Outcome, ok, blocked}
use os_project_cs.Spinlock.{Cpu, push_off}
use os_project_cs.Spinlock.Nesting.{IsSettled, push_off_step}
use os_project_cs.Spinlock.Section.{unlocked, locked_by, after, release_held}
use os_project_cs.Proc.{
  Proc, Kernel, null, Freed, used, unused, is_unused, cleared, handed_back, allocpid, find_unused,
  give_up, found, allocproc,
}
use os_project_cs.Proc.Quiet.{
  AllFree, Quiet, Back, Back-same, Back-after, acquire_slot, push_off-after, after-push_off,
}
use os_project_cs.Kalloc.{pgsize}

-- No slot is unused.
abbrev pub AllLive : List Proc → Type 0
AllLive [] = Unit
AllLive (p ∷ ps) = (is_unused p.state ≡ false) × AllLive ps

-- Where the first unused slot is.
pub data FirstUnused : List Proc → Type 0 where
  full : {ps : List Proc} → AllLive ps → FirstUnused ps
  slot_at :
      (before : List Proc) (p : Proc) (rest : List Proc)
      → AllLive before
      → is_unused p.state ≡ true
      → FirstUnused (before ++ p ∷ rest)

pub first_unused : (ps : List Proc) → FirstUnused ps
first_unused [] = full tt
first_unused (p ∷ ps) = elim (Bool-cases (is_unused p.state)) [
  | inl u ↦ slot_at [] p ps tt u
  | inr l ↦ more (first_unused ps) l
]
  where
    more : {qs : List Proc} → FirstUnused qs → is_unused p.state ≡ false → FirstUnused (p ∷ qs)
    more (full a) l = full (l, a)
    more (slot_at before q rest a u) l = slot_at (p ∷ before) q rest (l, a) u

find_none :
    (c : Cpu) (i : ℕ) (ps : List Proc)
    → IsSettled c
    → AllFree ps
    → AllLive ps
    → (c' : Cpu) × (find_unused c i ps ≡ ok (none, c', ps)) × Back c c'
unfolding find_unused
find_none c i [] h f a = (c, refl, Back-same c h)
find_none c i (p ∷ ps) h (e, f) (l, a) =
    let r = find_none (after c) (i + 1) ps h f a in
    (r.0, rw (acquire_slot c p.lock e, l, release_held c h, r.1, ← e) refl, Back-after r.2)

-- The slot with its lock held by the hart.
abbrev pub held_by : Cpu → Proc → Proc
held_by c p = record p { lock = locked_by c }

find_slot :
    (c : Cpu) (i : ℕ) (before : List Proc) (p : Proc) (rest : List Proc)
    → IsSettled c
    → AllFree (before ++ p ∷ rest)
    → AllLive before
    → is_unused p.state ≡ true
    → find_unused c i (before ++ p ∷ rest)
      ≡ ok (some (i + length before), push_off c, before ++ held_by c p ∷ rest)
unfolding find_unused
find_slot c i [] p rest h (e, f) a u =
    let z : i + 0 ≡ i = omega arith in rw (acquire_slot c p.lock e, u, z)
find_slot c i (b ∷ before) p rest h (e, f) (l, a) u =
    let z : i + 1 + length before ≡ i + suc (length before) = omega arith in
    rw (
      acquire_slot c b.lock e,
      l,
      release_held c h,
      find_slot (after c) (i + 1) before p rest h f a u,
      ← e,
      push_off-after c,
      z,
    )

pub get_elem?-middle :
    (xs : List Proc) (p : Proc) (ys : List Proc) → get_elem? (xs ++ p ∷ ys) (length xs) ≡ some p
get_elem?-middle [] p ys = refl
get_elem?-middle (x ∷ xs) p ys = get_elem?-middle xs p ys

set-middle :
    (xs : List Proc) (p q : Proc) (ys : List Proc) → set (xs ++ p ∷ ys) (length xs) q ≡ xs ++ q ∷ ys
set-middle [] p q ys = refl
set-middle (x ∷ xs) p q ys = ap (◌∷◌ x) (set-middle xs p q ys)

allocpid_lem :
    (s : Kernel)
    → IsSettled s.cpu
    → s.pid_lock ≡ unlocked
    → allocpid s
      ≡ ok (s.nextpid, record s { cpu = after s.cpu; nextpid = (s.nextpid + 1) % 2 ^ 32 })
unfolding allocpid
allocpid_lem s h e = rw (acquire_slot s.cpu s.pid_lock e, release_held s.cpu h, ← e)

-- A slot as `procinit` leaves it, but for its kernel stack and the registers of an earlier process.
abbrev pub emptied : Proc → Proc
emptied p = record p {
  lock = unlocked;
  state = unused;
  chan = null;
  killed = false;
  xstate = 0;
  pid = 0;
  parent = none;
  sz = 0;
  pagetable = none;
  trapframe = none;
  name = set p.name 0 0;
}

-- The slot of a new process.
abbrev pub started : ℕ → ℕ → ℕ → Kernel → Proc → Proc
started tf pt forkret s p = record p {
  lock = locked_by s.cpu;
  state = used;
  pid = s.nextpid;
  trapframe = some tf;
  pagetable = some pt;
  ra = forkret;
  sp = p.kstack + pgsize;
}

-- The ways in which `allocproc` ends.
pub data Allocation (trapframe pagetable : Option ℕ) (forkret : ℕ) (s : Kernel)
    : Outcome (Option ℕ × Kernel) → Type 0 where
  no_slot :
      {c : Cpu}
      → AllLive s.procs
      → Back s.cpu c
      → Allocation trapframe pagetable forkret s (ok (none, record s { cpu = c }))
  no_trapframe :
      (before : List Proc) (p : Proc) (rest : List Proc)
      → s.procs ≡ before ++ p ∷ rest
      → AllLive before
      → is_unused p.state ≡ true
      → trapframe ≡ none
      → Allocation trapframe pagetable forkret s (
          ok (
            none,
            record s {
              cpu = after s.cpu;
              procs = before ++ emptied p ∷ rest;
              nextpid = (s.nextpid + 1) % 2 ^ 32;
              freed = elim p.pagetable [ none ↦ s.freed | some pt ↦ Freed.table pt p.sz ∷ s.freed ];
            },
          ))
  no_pagetable :
      (before : List Proc) (p : Proc) (rest : List Proc) (tf : ℕ)
      → s.procs ≡ before ++ p ∷ rest
      → AllLive before
      → is_unused p.state ≡ true
      → trapframe ≡ some tf
      → pagetable ≡ none
      → Allocation trapframe pagetable forkret s (
          ok (
            none,
            record s {
              cpu = after s.cpu;
              procs = before ++ emptied p ∷ rest;
              nextpid = (s.nextpid + 1) % 2 ^ 32;
              freed = Freed.page tf ∷ s.freed;
            },
          ))
  taken :
      (before : List Proc) (p : Proc) (rest : List Proc) (tf pt : ℕ)
      → s.procs ≡ before ++ p ∷ rest
      → AllLive before
      → is_unused p.state ≡ true
      → trapframe ≡ some tf
      → pagetable ≡ some pt
      → Allocation trapframe pagetable forkret s (
          ok (
            some (length before),
            record s {
              cpu = push_off s.cpu;
              procs = before ++ started tf pt forkret s p ∷ rest;
              nextpid = (s.nextpid + 1) % 2 ^ 32;
            },
          ))

-- `s` with the slot found, and its lock held.
abbrev at_slot : Kernel → List Proc → Proc → List Proc → Kernel
at_slot s before p rest = record s {
  cpu = push_off s.cpu;
  procs = before ++ held_by s.cpu p ∷ rest;
}

allocproc-found :
    (trapframe pagetable : Option ℕ) (forkret : ℕ) (s : Kernel)
    → Quiet s
    → (before : List Proc) (p : Proc) (rest : List Proc) → s.procs ≡ before ++ p ∷ rest
    → AllLive before
    → is_unused p.state ≡ true
    → allocproc trapframe pagetable forkret s
      ≡ found trapframe pagetable forkret
          (length before)
          (held_by s.cpu p)
          (at_slot s before p rest)
unfolding allocproc
allocproc-found trapframe pagetable forkret s q before p rest e a u =
    let at = find_slot s.cpu 0 before p rest q.settled (subst AllFree e q.slots) a u in
    let z : 0 + length before ≡ length before = omega arith in
    let mid = get_elem?-middle before (held_by s.cpu p) rest in
    rw (e, at, z)
      (ap
        (λ o. elim o as (λ _. Outcome (Option ℕ × Kernel)) [
          | none ↦ blocked
          | some p' ↦ found trapframe pagetable forkret (length before) p' (at_slot s before p rest)
        ])
        mid)

allocpid_held :
    (s : Kernel)
    → Quiet s
    → (before : List Proc) (p : Proc) (rest : List Proc)
    → allocpid (at_slot s before p rest)
      ≡ ok (s.nextpid, record (at_slot s before p rest) { nextpid = (s.nextpid + 1) % 2 ^ 32 })
allocpid_held s q before p rest =
    allocpid_lem (at_slot s before p rest) (push_off_step s.cpu).settled q.pids
    ∙ (let back = after-push_off s.cpu in rw back refl)

pub allocproc_takes :
    (tf pt forkret : ℕ) (s : Kernel)
    → Quiet s
    → (before : List Proc) (p : Proc) (rest : List Proc) → s.procs ≡ before ++ p ∷ rest
    → AllLive before
    → is_unused p.state ≡ true
    → allocproc (some tf) (some pt) forkret s
      ≡ ok (
        some (length before),
        record s {
          cpu = push_off s.cpu;
          procs = before ++ started tf pt forkret s p ∷ rest;
          nextpid = (s.nextpid + 1) % 2 ^ 32;
        },
      )
unfolding allocproc found
allocproc_takes tf pt forkret s q before p rest e a u =
    rw
      (
        allocproc-found (some tf) (some pt) forkret s q before p rest e a u,
        allocpid_held s q before p rest,
        set-middle before (held_by s.cpu p),
      )
      refl

table_back :
    (o : Option ℕ) (sz : ℕ) (fs : List Freed)
    → (elim o as (λ _. List Freed) [ none ↦ [] | some pt ↦ Freed.table pt sz ∷ [] ] ++ []) ++ fs
      ≡ elim o [ none ↦ fs | some pt ↦ Freed.table pt sz ∷ fs ]
table_back none sz fs = refl
table_back (some pt) sz fs = refl

take_slot :
    (trapframe pagetable : Option ℕ) (forkret : ℕ) (s : Kernel)
    → Quiet s
    → (before : List Proc) (p : Proc) (rest : List Proc) → s.procs ≡ before ++ p ∷ rest
    → AllLive before
    → is_unused p.state ≡ true
    → Allocation trapframe pagetable forkret s (allocproc trapframe pagetable forkret s)
unfolding allocproc found give_up cleared handed_back
take_slot none pagetable forkret s q before p rest e a u =
    rw
      (
        allocproc-found none pagetable forkret s q before p rest e a u,
        allocpid_held s q before p rest,
        release_held s.cpu q.settled,
        set-middle before (held_by s.cpu p),
      )
      (subst
        (λ fs. Allocation none pagetable forkret s (
          ok (
            none,
            record s {
              cpu = after s.cpu;
              procs = before ++ emptied p ∷ rest;
              nextpid = (s.nextpid + 1) % 2 ^ 32;
              freed = fs;
            },
          )))
        (sym (table_back p.pagetable p.sz s.freed)) (no_trapframe before p rest e a u refl))
take_slot (some tf) none forkret s q before p rest e a u =
    rw
      (
        allocproc-found (some tf) none forkret s q before p rest e a u,
        allocpid_held s q before p rest,
        release_held s.cpu q.settled,
        set-middle before (held_by s.cpu p),
      )
      (no_pagetable before p rest tf e a u refl refl)
take_slot (some tf) (some pt) forkret s q before p rest e a u =
    rw (allocproc_takes tf pt forkret s q before p rest e a u)
      (taken before p rest tf pt e a u refl refl)

-- With every lock free, `allocproc` takes the first unused slot, gives it the next pid, its trapframe
-- and its page table, and returns it with its lock held. Without an unused slot it changes nothing;
-- without memory it gives back what it got, leaves the slot empty, and every lock free, the pid being
-- used up. No other slot changes.
pub allocproc-Allocation :
    (trapframe pagetable : Option ℕ) (forkret : ℕ) (s : Kernel)
    → Quiet s
    → Allocation trapframe pagetable forkret s (allocproc trapframe pagetable forkret s)
unfolding allocproc
allocproc-Allocation trapframe pagetable forkret s q = go (first_unused s.procs) refl
  where
    go :
        {ps : List Proc}
        → FirstUnused ps
        → s.procs ≡ ps
        → Allocation trapframe pagetable forkret s (allocproc trapframe pagetable forkret s)
    go (full a) e =
        (let r = find_none s.cpu 0 s.procs q.settled q.slots (subst AllLive (sym e) a) in
          rw (r.1) (no_slot (subst AllLive (sym e) a) r.2))
    go (slot_at before p rest a u) e = take_slot trapframe pagetable forkret s q before p rest e a u
