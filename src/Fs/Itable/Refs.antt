-- ===== src/Fs/Itable/Refs.antt =====
-- References to the entries of the inode table of kernel/fs.c, and that no inode has two entries.
use os_project_cs.Prelude.{
  ℕ, zero, suc, ◌+◌, ◌<◌, ◌≡◌, ◌≢◌, ◌⊎◌, inl, inr, refl, ◌∙◌, sym, ap, subst, Bool, true, false,
  List, [], ◌∷◌, Option, none, some, ◌==◌, if◌then◌else◌, arith, get_elem?, set,
  get_elem?-set_cases, ==_ne, Bool-cases,
}
use mathlib.Core.Option.{some-injective, none-ne-some}
use os_project_cs.Spinlock.Section.{IsFree}
use os_project_cs.Fs.Inode.{Inode}
use os_project_cs.Fs.Itable.{Itable, is_for, iget_rounds}

-- The loop after an empty entry has been seen.
data LaterHit (dev inum i e : ℕ) (ips : List Inode) : Bool × Option ℕ → Type 0 where
  found_later :
      (j : ℕ) (ip : Inode)
      → get_elem? ips j ≡ some ip
      → is_for dev inum ip ≡ true
      → LaterHit dev inum i e ips (true, some (i + j))
  not_found :
      ((j : ℕ) (ip : Inode) → get_elem? ips j ≡ some ip → is_for dev inum ip ≡ false)
      → LaterHit dev inum i e ips (false, some e)

later :
    (dev inum i e : ℕ) (ips : List Inode)
    → LaterHit dev inum i e ips (iget_rounds dev inum i (some e) ips)
unfolding iget_rounds
later dev inum i e [] = not_found (λ j ip h. absurd (none-ne-some _ h))
later dev inum i e (ip ∷ ips) = elim (Bool-cases (is_for dev inum ip)) [
  | inl hit ↦
      let z : i + 0 ≡ i = omega arith in
      rw hit
        (subst (λ n. LaterHit dev inum i e (ip ∷ ips) (true, some n)) z (found_later 0 ip refl hit))
  | inr miss ↦ rw miss (more miss _ (later dev inum (i + 1) e ips))
]
  where
    more :
        is_for dev inum ip ≡ false
        → (r : Bool × Option ℕ) → LaterHit dev inum (i + 1) e ips r
        → LaterHit dev inum i e (ip ∷ ips) r
    more miss _ (found_later j jp at hit) =
        let z : i + suc j ≡ i + 1 + j = omega arith in
        subst (λ n. LaterHit dev inum i e (ip ∷ ips) (true, some n)) z
          (found_later (suc j) jp at hit)
    more miss _ (not_found all) = not_found all'
      where
        all' : (j : ℕ) (jp : Inode) → get_elem? (ip ∷ ips) j ≡ some jp → is_for dev inum jp ≡ false
        all' zero jp h = subst (λ k. is_for dev inum k ≡ false) (some-injective _ _ h) miss
        all' (suc j) jp h = all j jp h

-- What the loop of `iget` finds.
pub data Lookup (dev inum i : ℕ) (ips : List Inode) : Bool × Option ℕ → Type 0 where
  hit :
      (j : ℕ) (ip : Inode)
      → get_elem? ips j ≡ some ip
      → is_for dev inum ip ≡ true
      → Lookup dev inum i ips (true, some (i + j))
  empty_entry :
      (j : ℕ) (ip : Inode)
      → ((k : ℕ) (kp : Inode) → get_elem? ips k ≡ some kp → is_for dev inum kp ≡ false)
      → get_elem? ips j ≡ some ip
      → ip.ref ≡ 0
      → ((k : ℕ) (kp : Inode) → get_elem? ips k ≡ some kp → k < j → 0 < kp.ref)
      → Lookup dev inum i ips (false, some (i + j))
  all_used :
      ((k : ℕ) (kp : Inode) → get_elem? ips k ≡ some kp → is_for dev inum kp ≡ false)
      → ((k : ℕ) (kp : Inode) → get_elem? ips k ≡ some kp → 0 < kp.ref)
      → Lookup dev inum i ips (false, none)

-- An entry that is first in the table and not for the inode.
none_for :
    (dev inum : ℕ) (ip : Inode) (ips : List Inode)
    → is_for dev inum ip ≡ false
    → ((k : ℕ) (kp : Inode) → get_elem? ips k ≡ some kp → is_for dev inum kp ≡ false)
    → (k : ℕ) (kp : Inode) → get_elem? (ip ∷ ips) k ≡ some kp
    → is_for dev inum kp ≡ false
none_for dev inum ip ips miss all zero kp h =
    subst (λ k. is_for dev inum k ≡ false) (some-injective _ _ h) miss
none_for dev inum ip ips miss all (suc k) kp h = all k kp h

pub lookup :
    (dev inum i : ℕ) (ips : List Inode) → Lookup dev inum i ips (iget_rounds dev inum i none ips)
unfolding iget_rounds
lookup dev inum i [] =
    all_used (λ k kp h. absurd (none-ne-some _ h)) (λ k kp h. absurd (none-ne-some _ h))
lookup dev inum i (ip ∷ ips) = elim (Bool-cases (is_for dev inum ip)) [
  | inl here ↦
      let z : i + 0 ≡ i = omega arith in
      rw here (subst (λ n. Lookup dev inum i (ip ∷ ips) (true, some n)) z (hit 0 ip refl here))
  | inr miss ↦ elim (Bool-cases (ip.ref == 0)) [
    | inl empty ↦ rw (miss, empty) (seen miss empty _ (later dev inum (i + 1) i ips))
    | inr busy ↦ rw (miss, busy) (more miss busy _ (lookup dev inum (i + 1) ips))
  ]
]
  where
    z : (j : ℕ) → i + suc j ≡ i + 1 + j
    z j = omega arith

    used_before :
        (ip.ref == 0) ≡ false
        → (j : ℕ) → ((k : ℕ) (kp : Inode) → get_elem? ips k ≡ some kp → k < j → 0 < kp.ref)
        → (k : ℕ) (kp : Inode) → get_elem? (ip ∷ ips) k ≡ some kp
        → k < suc j
        → 0 < kp.ref
    used_before busy j before zero kp h l =
        let same : ip.ref ≡ kp.ref = ap (λ k. k.ref) (some-injective _ _ h) in ground (arith, busy)
    used_before busy j before (suc k) kp h l = before k kp h (omega arith)

    seen :
        is_for dev inum ip ≡ false
        → (ip.ref == 0) ≡ true
        → (r : Bool × Option ℕ) → LaterHit dev inum (i + 1) i ips r
        → Lookup dev inum i (ip ∷ ips) r
    seen miss empty _ (found_later j jp at is) =
        subst (λ n. Lookup dev inum i (ip ∷ ips) (true, some n)) (z j) (hit (suc j) jp at is)
    seen miss empty _ (not_found all) =
        let e : i + 0 ≡ i = omega arith in
        subst (λ n. Lookup dev inum i (ip ∷ ips) (false, some n)) e
          (empty_entry 0 ip (none_for dev inum ip ips miss all) refl (ground arith)
            (λ k kp at l. absurd (omega arith)))

    more :
        is_for dev inum ip ≡ false
        → (ip.ref == 0) ≡ false
        → (r : Bool × Option ℕ) → Lookup dev inum (i + 1) ips r
        → Lookup dev inum i (ip ∷ ips) r
    more miss busy _ (hit j jp at is) =
        subst (λ n. Lookup dev inum i (ip ∷ ips) (true, some n)) (z j) (hit (suc j) jp at is)
    more miss busy _ (empty_entry j jp all at idle before) =
        subst (λ n. Lookup dev inum i (ip ∷ ips) (false, some n)) (z j)
          (empty_entry (suc j) jp (none_for dev inum ip ips miss all) at idle
            (used_before busy j before))
    more miss busy _ (all_used all used) = all_used (none_for dev inum ip ips miss all) used'
      where
        used' : (k : ℕ) (kp : Inode) → get_elem? (ip ∷ ips) k ≡ some kp → 0 < kp.ref
        used' zero kp h =
            let same : ip.ref ≡ kp.ref = ap (λ k. k.ref) (some-injective _ _ h) in
            ground (arith, busy)
        used' (suc k) kp h = used k kp h

-- Each entry counts its holders, and no inode has two entries.
pub record Counted (s : Itable) (holders : ℕ → ℕ) : Type 0 where
  pub free : IsFree s.cpu s.lock
  pub exact : (i : ℕ) (ip : Inode) → get_elem? s.inode i ≡ some ip → ip.ref ≡ holders i
  pub unique :
      (dev inum i j : ℕ) (ip jp : Inode)
      → get_elem? s.inode i ≡ some ip
      → get_elem? s.inode j ≡ some jp
      → is_for dev inum ip ≡ true
      → is_for dev inum jp ≡ true
      → i ≡ j

-- The entry `i` written, and the count of its holders with it.
abbrev pub recount : (ℕ → ℕ) → ℕ → ℕ → ℕ → ℕ
recount holders i n j = if i == j then n else holders j

pub exact-set :
    (ips : List Inode) (holders : ℕ → ℕ) (i n : ℕ) (new : Inode)
    → new.ref ≡ n
    → ((j : ℕ) (jp : Inode) → get_elem? ips j ≡ some jp → jp.ref ≡ holders j)
    → (j : ℕ) (jp : Inode) → get_elem? (set ips i new) j ≡ some jp
    → jp.ref ≡ recount holders i n j
exact-set ips holders i n new e exact j jp at = go (get_elem?-set_cases ips i j new jp at)
  where
    go :
        ((i ≡ j) × (jp ≡ new)) ⊎ ((i ≢ j) × (get_elem? ips j ≡ some jp))
        → jp.ref ≡ recount holders i n j
    go (inl (same, is)) = let t : (i == j) ≡ true = ground arith in rw t (ap (λ k. k.ref) is ∙ e)
    go (inr (other, old)) = let t : (i == j) ≡ false = ==_ne i j other in rw t (exact j jp old)

-- Entries stay unique if the new one is for an inode that no other entry is for.
pub unique-set :
    (ips : List Inode) (i : ℕ) (new : Inode)
    → ((dev inum a b : ℕ) (ap bp : Inode)
        → get_elem? ips a ≡ some ap
        → get_elem? ips b ≡ some bp
        → is_for dev inum ap ≡ true
        → is_for dev inum bp ≡ true
        → a ≡ b)
    → ((dev inum j : ℕ) (jp : Inode)
        → i ≢ j
        → get_elem? ips j ≡ some jp
        → is_for dev inum new ≡ true
        → is_for dev inum jp ≡ true
        → ⊥)
    → (dev inum a b : ℕ) (p q : Inode) → get_elem? (set ips i new) a ≡ some p
    → get_elem? (set ips i new) b ≡ some q
    → is_for dev inum p ≡ true
    → is_for dev inum q ≡ true
    → a ≡ b
unique-set ips i new unique alone dev inum a b p q pa qb fp fq =
    go (get_elem?-set_cases ips i a new p pa) (get_elem?-set_cases ips i b new q qb)
  where
    go :
        ((i ≡ a) × (p ≡ new)) ⊎ ((i ≢ a) × (get_elem? ips a ≡ some p))
        → ((i ≡ b) × (q ≡ new)) ⊎ ((i ≢ b) × (get_elem? ips b ≡ some q))
        → a ≡ b
    go (inl (e, _)) (inl (f, _)) = sym e ∙ f
    go (inl (_, is)) (inr (other, old)) =
        absurd (alone dev inum b q other old (subst (λ k. is_for dev inum k ≡ true) is fp) fq)
    go (inr (other, old)) (inl (_, is)) =
        absurd (alone dev inum a p other old (subst (λ k. is_for dev inum k ≡ true) is fq) fp)
    go (inr (_, old)) (inr (_, old')) = unique dev inum a b p q old old' fp fq
