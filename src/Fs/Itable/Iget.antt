-- ===== src/Fs/Itable/Iget.antt =====
-- `iget` and `idup` of kernel/fs.c against the references that are held.
use os_project_cs.Prelude.{
  ℕ, zero, suc, ◌+◌, ◌-◌, ◌<◌, ◌≡◌, ◌≢◌, refl, ◌∙◌, sym, ap, subst, Bool, true, false, List, [],
  ◌∷◌, Option, none, some, ◌==◌, if◌then◌else◌, arith, get_elem?, set, get_elem?-set_self,
  get_elem?-set_ne, set_same, get_elem?-bound,
}
use os_project_cs.Outcome.{Outcome, ok, panic, blocked, Message, ◌>>=◌}
use os_project_cs.Spinlock.{push_off, release}
use os_project_cs.Spinlock.Section.{
  IsFree, unlocked, after, after-IsFree, acquire_free, release_held,
}
use os_project_cs.Fs.Inode.{Inode}
use os_project_cs.Proc.Quiet.{after-after}
use os_project_cs.Fs.Itable.{Itable, is_for, iget_rounds, iget, idup, iput, iput_entry, change}
use os_project_cs.Fs.Itable.Refs.{
  Counted, recount, Lookup, hit, empty_entry, all_used, lookup, exact-set, unique-set,
}

-- How `iget` ends.
pub data Got (dev inum : ℕ) (s : Itable) (holders : ℕ → ℕ) : Outcome (ℕ × Itable) → Type 0 where
  present :
      {t : Itable} (i : ℕ) (ip : Inode)
      → get_elem? s.inode i ≡ some ip
      → is_for dev inum ip ≡ true
      → get_elem? t.inode i ≡ some (record ip { ref = ip.ref + 1 })
      → ((j : ℕ) → i ≢ j → get_elem? t.inode j ≡ get_elem? s.inode j)
      → Counted t (recount holders i (holders i + 1))
      → t.fs ≡ s.fs
      → Got dev inum s holders (ok (i, t))
  entered :
      {t : Itable} (i : ℕ) (ip : Inode)
      → ((j : ℕ) (jp : Inode) → get_elem? s.inode j ≡ some jp → is_for dev inum jp ≡ false)
      → get_elem? s.inode i ≡ some ip
      → holders i ≡ 0
      → ((j : ℕ) (jp : Inode) → get_elem? s.inode j ≡ some jp → j < i → 0 < holders j)
      → get_elem? t.inode i ≡ some (record ip { dev = dev; inum = inum; ref = 1; valid = false })
      → ((j : ℕ) → i ≢ j → get_elem? t.inode j ≡ get_elem? s.inode j)
      → Counted t (recount holders i 1)
      → t.fs ≡ s.fs
      → Got dev inum s holders (ok (i, t))
  no_inodes :
      ((j : ℕ) (jp : Inode) → get_elem? s.inode j ≡ some jp → is_for dev inum jp ≡ false)
      → ((j : ℕ) (jp : Inode) → get_elem? s.inode j ≡ some jp → 0 < holders j)
      → Got dev inum s holders (panic Message.iget_no_inodes)

change-at :
    (f : Inode → Inode) (i : ℕ) (ips : List Inode) (ip : Inode)
    → get_elem? ips i ≡ some ip
    → change f i ips ≡ set ips i (f ip)
change-at f i ips ip at =
    ap (λ o. elim o as (λ _. List Inode) [ none ↦ ips | some k ↦ set ips i (f k) ]) at

-- One holder more of an entry in use.
more-Counted :
    (s : Itable) (holders : ℕ → ℕ) (i : ℕ) (ip : Inode)
    → Counted s holders
    → get_elem? s.inode i ≡ some ip
    → 0 < ip.ref
    → Counted
        (record s {
          cpu = after s.cpu;
          lock = unlocked;
          inode = set s.inode i (record ip { ref = ip.ref + 1 });
        })
        (recount holders i (holders i + 1))
more-Counted s holders i ip h at used = record {
  free = after-IsFree s.cpu h.free.settled;
  exact =
      exact-set s.inode holders i (holders i + 1) (record ip { ref = ip.ref + 1 })
        (ap (λ n. n + 1) (h.exact i ip at)) h.exact;
  unique =
      unique-set s.inode i (record ip { ref = ip.ref + 1 }) h.unique
        (λ dev inum j jp other old new_for old_for.
          other (h.unique dev inum i j ip jp at old (for_before dev inum new_for) old_for));
}
  where
    for_before :
        (dev inum : ℕ)
        → is_for dev inum (record ip { ref = ip.ref + 1 }) ≡ true
        → is_for dev inum ip ≡ true
    for_before dev inum h = ground arith

-- An inode without an entry entered.
entered-Counted :
    (dev inum : ℕ) (s : Itable) (holders : ℕ → ℕ) (i : ℕ) (ip : Inode)
    → Counted s holders
    → ((j : ℕ) (jp : Inode) → get_elem? s.inode j ≡ some jp → is_for dev inum jp ≡ false)
    → Counted
        (record s {
          cpu = after s.cpu;
          lock = unlocked;
          inode = set s.inode i (record ip { dev = dev; inum = inum; ref = 1; valid = false });
        })
        (recount holders i 1)
entered-Counted dev inum s holders i ip h all = record {
  free = after-IsFree s.cpu h.free.settled;
  exact =
      exact-set s.inode holders i 1 (record ip { dev = dev; inum = inum; ref = 1; valid = false })
        refl h.exact;
  unique =
      unique-set s.inode i (record ip { dev = dev; inum = inum; ref = 1; valid = false }) h.unique
        alone;
}
  where
    alone :
        (d n j : ℕ) (jp : Inode)
        → i ≢ j
        → get_elem? s.inode j ≡ some jp
        → is_for d n (record ip { dev = dev; inum = inum; ref = 1; valid = false }) ≡ true
        → is_for d n jp ≡ true
        → ⊥
    alone d n j jp ne at new_for old_for =
        let none_is = all j jp at in
        let d_is : dev ≡ d = ground arith in let n_is : inum ≡ n = ground arith in ground arith

is_for_used : (dev inum : ℕ) (ip : Inode) → is_for dev inum ip ≡ true → 0 < ip.ref
is_for_used dev inum ip h = ground arith

-- `iget` of an inode that has an entry counts one holder more of it; otherwise it enters the inode
-- into the first entry without holders, to be read from disk later, and panics if there is none. No
-- other entry changes, entries still count their holders, and no inode gets two entries.
pub iget-Got :
    (dev inum : ℕ) (s : Itable) (holders : ℕ → ℕ)
    → Counted s holders
    → Got dev inum s holders (iget dev inum s)
unfolding iget
iget-Got dev inum s holders h =
    rw (acquire_free s.cpu s.lock h.free.unlocked)
      (go (iget_rounds dev inum 0 none s.inode) (lookup dev inum 0 s.inode))
  where
    go :
        (r : Bool × Option ℕ)
        → Lookup dev inum 0 s.inode r
        → Got dev inum s holders (elim r.1 as (λ _. Outcome (ℕ × Itable)) [
          | none ↦ panic Message.iget_no_inodes
          | some i ↦ do
            let recycled =
                λ (ip : Inode). record ip { dev = dev; inum = inum; ref = 1; valid = false }
            let counted = λ (ip : Inode). record ip { ref = ip.ref + 1 }
            (c', lk') ← release (push_off s.cpu) (record { locked = true; cpu = some s.cpu.id })
            ok (
              i,
              record s {
                cpu = c';
                lock = lk';
                inode = change (if r.0 then counted else recycled) i s.inode;
              },
            )
        ])
    go _ (hit j ip at is) =
        let z : 0 + j ≡ j = omega arith in
        let counted = λ (k : Inode). record k { ref = k.ref + 1 } in
        let written = change-at counted j s.inode ip at in
        rw (release_held s.cpu h.free.settled, z, written)
          (present j ip at is
            (get_elem?-set_self s.inode j (record ip { ref = ip.ref + 1 })
              (get_elem?-bound s.inode j at))
            (λ k ne. get_elem?-set_ne s.inode (record ip { ref = ip.ref + 1 }) ne)
            (more-Counted s holders j ip h at (is_for_used dev inum ip is)) refl)
    go _ (empty_entry j ip all at idle before) =
        let z : 0 + j ≡ j = omega arith in
        let recycled = λ (k : Inode). record k { dev = dev; inum = inum; ref = 1; valid = false } in
        let written = change-at recycled j s.inode ip at in
        rw (release_held s.cpu h.free.settled, z, written)
          (entered j ip all at (sym (h.exact j ip at) ∙ idle)
            (λ k kp old l. subst (λ n. 0 < n) (h.exact k kp old) (before k kp old l))
            (get_elem?-set_self s.inode j (recycled ip) (get_elem?-bound s.inode j at))
            (λ k ne. get_elem?-set_ne s.inode (recycled ip) ne)
            (entered-Counted dev inum s holders j ip h all) refl)
    go _ (all_used all used) =
        no_inodes all (λ j jp at. subst (λ n. 0 < n) (h.exact j jp at) (used j jp at))

iput-at :
    (i : ℕ) (ip : Inode) (s : Itable) → get_elem? s.inode i ≡ some ip → iput i s ≡ iput_entry i ip s
unfolding iput
iput-at i ip s at =
    ap (λ o. elim o as (λ _. Outcome Itable) [ none ↦ blocked | some k ↦ iput_entry i k s ]) at

-- A write of an entry followed by another.
twice : (ips : List Inode) (i : ℕ) (a b : Inode) → set (set ips i a) i b ≡ set ips i b
twice [] i a b = refl
twice (ip ∷ ips) zero a b = refl
twice (ip ∷ ips) (suc i) a b = rw (twice ips i a b)

-- A reference that `idup` adds to an entry in use and `iput` drops leaves every entry as it was,
-- and frees nothing on disk.
pub iput-idup :
    (i : ℕ) (ip : Inode) (s : Itable)
    → IsFree s.cpu s.lock
    → get_elem? s.inode i ≡ some ip
    → 0 < ip.ref
    → (idup i s >>= iput i) ≡ ok (record s { cpu = after s.cpu; lock = unlocked })
unfolding idup iput_entry
iput-idup i ip s free at used =
    let counted = record ip { ref = ip.ref + 1 } in
    let more = λ (k : Inode). record k { ref = k.ref + 1 } in
    let written = change-at more i s.inode ip at in
    let here = get_elem?-set_self s.inode i counted (get_elem?-bound s.inode i at) in
    let busy : (ip.ref + 1 == 1) ≡ false = ground arith in
    let back : ip.ref + 1 - 1 ≡ ip.ref = omega arith in
    let t = record s { cpu = after s.cpu; lock = unlocked; inode = set s.inode i counted } in
    rw
      (
        acquire_free s.cpu s.lock free.unlocked,
        release_held s.cpu free.settled,
        written,
        iput-at i counted t here,
        acquire_free (after s.cpu) unlocked refl,
        busy,
        release_held (after s.cpu) (after-IsFree s.cpu free.settled).settled,
        after-after s.cpu,
        twice s.inode i counted (record ip { ref = ip.ref + 1 - 1 }),
        back,
        set_same s.inode i ip at,
      )
      refl
