-- ===== src/Proc/Pids.antt =====
-- Process ids in the table of kernel/proc.c: no slot in use shares its own.
use os_project_cs.Prelude.{
  ℕ, zero, suc, ◌+◌, ◌%◌, ◌^◌, ◌≡◌, ◌≢◌, refl, ◌∙◌, Bool, true, false, List, [], ◌∷◌, ◌++◌, Option,
  some, inl, inr, ◌⊎◌, arith, sym, ap, get_elem?, set, ◌<◌, subst,
}
use mathlib.Core.Option.{some-injective}
use os_project_cs.Outcome.{Outcome, ok, panic, blocked, ◌>>=◌}
use os_project_cs.Spinlock.{Cpu, Spinlock}
use os_project_cs.Proc.{Proc, Kernel, Chan, Freed, wakeup, kill, allocproc, is_unused}
use os_project_cs.Proc.Numbers.{
  pids, Below, Missing, Distinct, Below-more, Below-replace, Distinct-replace, pids-append,
  Each-pids, Killing-pids, set-pids,
}
use os_project_cs.Proc.Named.{
  not_both, IsNamed, AllNamed, AllNamed-replace, AllNamed-at, AllNamed-set, Each-AllNamed,
  Killing-AllNamed,
}
use os_project_cs.Proc.Quiet.{Quiet}
use os_project_cs.Proc.Wakeup.{wakeup-Woke}
use os_project_cs.Proc.Kill.{kill-KillEnd}
use os_project_cs.Proc.Alloc.{
  Allocation, no_slot, no_trapframe, no_pagetable, taken, allocproc-Allocation,
}
use os_project_cs.Proc.Wait.{wait, WaitEnd, reaped}
use os_project_cs.Proc.Wait.Reap.{Scanned, reaps}
use os_project_cs.Proc.Wait.Ends.{
  Waited, reaps_child, cannot_copy, no_child, was_killed, sleeps, wait-Waited,
}

-- Every pid given is below `nextpid`, no number but 0 occurs twice, and 0 only in unused slots.
pub record PidsOk (s : Kernel) : Type 0 where
  pub positive : 0 < s.nextpid
  pub below : Below s.nextpid (pids s.procs)
  pub distinct : Distinct (pids s.procs)
  pub named : AllNamed s.procs

-- A call leaves every pid as it is.
same_pids :
    {s t : Kernel}
    → pids t.procs ≡ pids s.procs
    → t.nextpid ≡ s.nextpid
    → AllNamed t.procs
    → PidsOk s
    → PidsOk t
same_pids {s = s} {t = t} e n named h = record {
  positive = subst (λ k. 0 < k) (sym n) h.positive;
  below =
      subst (λ k. Below k (pids t.procs)) (sym n) (subst (λ l. Below s.nextpid l) (sym e) h.below);
  distinct = subst Distinct (sym e) h.distinct;
  named = named;
}

replaced-AllNamed :
    {ps qs : List Proc} (xs : List Proc) (p q : Proc) (ys : List Proc)
    → ps ≡ xs ++ p ∷ ys
    → qs ≡ xs ++ q ∷ ys
    → IsNamed q
    → AllNamed ps
    → AllNamed qs
replaced-AllNamed xs p q ys e f n h =
    subst AllNamed (sym f) (AllNamed-replace xs p q ys n (subst AllNamed e h))

-- A call puts the pid 0 into a slot, which is then unused.
emptied_pid :
    {s t : Kernel} (xs : List Proc) (p q : Proc) (ys : List Proc)
    → s.procs ≡ xs ++ p ∷ ys
    → t.procs ≡ xs ++ q ∷ ys
    → q.pid ≡ 0
    → is_unused q.state ≡ true
    → t.nextpid ≡ s.nextpid
    → PidsOk s
    → PidsOk t
emptied_pid {s = s} {t = t} xs p q ys e f z idle n h =
    let before : pids s.procs ≡ pids xs ++ p.pid ∷ pids ys = ap pids e ∙ pids-append xs p ys in
    let after : pids t.procs ≡ pids xs ++ q.pid ∷ pids ys = ap pids f ∙ pids-append xs q ys in
    let below = subst (λ l. Below s.nextpid l) before h.below in
    let positive = h.positive in
    record {
      positive = subst (λ k. 0 < k) (sym n) h.positive;
      below =
          subst (λ k. Below k (pids t.procs)) (sym n)
            (subst (λ l. Below s.nextpid l) (sym after)
              (Below-replace s.nextpid (pids xs) p.pid q.pid (pids ys) (omega arith) below));
      distinct = subst Distinct (sym after) (
          Distinct-replace s.nextpid (pids xs) p.pid q.pid (pids ys) (inl z) below
            (subst Distinct before h.distinct));
      named = replaced-AllNamed xs p q ys e f (λ o. idle) h.named;
    }

-- A call puts the next pid, or 0, into a slot, and counts on.
next_pid :
    {s t : Kernel} (xs : List Proc) (p q : Proc) (ys : List Proc)
    → s.procs ≡ xs ++ p ∷ ys
    → t.procs ≡ xs ++ q ∷ ys
    → (q.pid ≡ 0) ⊎ (q.pid ≡ s.nextpid)
    → (q.pid ≡ 0 → is_unused q.state ≡ true)
    → t.nextpid ≡ s.nextpid + 1
    → PidsOk s
    → PidsOk t
next_pid {s = s} {t = t} xs p q ys e f z idle n h =
    let before : pids s.procs ≡ pids xs ++ p.pid ∷ pids ys = ap pids e ∙ pids-append xs p ys in
    let after : pids t.procs ≡ pids xs ++ q.pid ∷ pids ys = ap pids f ∙ pids-append xs q ys in
    let below = subst (λ l. Below s.nextpid l) before h.below in
    let positive = h.positive in
    let small : q.pid < s.nextpid + 1 = omega arith in
    record {
      positive = omega arith;
      below =
          subst (λ k. Below k (pids t.procs)) (sym n)
            (subst (λ l. Below (s.nextpid + 1) l) (sym after)
              (Below-replace (s.nextpid + 1) (pids xs) p.pid q.pid (pids ys) small
                (Below-more s.nextpid (pids xs ++ p.pid ∷ pids ys) below)));
      distinct = subst Distinct (sym after) (
          Distinct-replace s.nextpid (pids xs) p.pid q.pid (pids ys) z below
            (subst Distinct before h.distinct));
      named = replaced-AllNamed xs p q ys e f idle h.named;
    }

-- The state that a call leaves, if it returns.
abbrev LeavesOk : {A : Type 0} → Outcome (A × Kernel) → Type 0
LeavesOk (ok (a, t)) = PidsOk t
LeavesOk (panic m) = Unit
LeavesOk blocked = Unit

allocated :
    {trapframe pagetable : Option ℕ} {forkret : ℕ} {s : Kernel} {out : Outcome (Option ℕ × Kernel)}
    → PidsOk s
    → s.nextpid + 1 < 2 ^ 31
    → Allocation trapframe pagetable forkret s out
    → LeavesOk out
allocated {s = s} h small a = go a
  where
    counted : (s.nextpid + 1) % 2 ^ 32 ≡ s.nextpid + 1
    counted = omega arith

    go :
        {trapframe pagetable : Option ℕ} {forkret : ℕ} {out : Outcome (Option ℕ × Kernel)}
        → Allocation trapframe pagetable forkret s out
        → LeavesOk out
    go (no_slot a b) = same_pids refl refl h.named h
    go (no_trapframe before p rest e a u n) =
        next_pid before p _ rest e refl (inl refl) (λ z. refl) counted h
    go (no_pagetable before p rest tf e a u n m) =
        next_pid before p _ rest e refl (inl refl) (λ z. refl) counted h
    go (taken before p rest tf pt e a u n m) =
        let positive = h.positive in
        next_pid before p _ rest e refl (inr refl) (λ z. absurd (omega arith)) counted h

reaped_pids :
    {me pid : ℕ} {copied : Bool} {s t : Kernel} {fs : List Freed}
    → PidsOk s
    → Scanned me copied s.procs (reaped pid) t.procs fs
    → t.nextpid ≡ s.nextpid
    → PidsOk t
reaped_pids {me} {pid} {copied} {s} {t} {fs} h scanned n = go refl refl scanned
  where
    go :
        {ps qs : List Proc} {gs : List Freed}
        → s.procs ≡ ps
        → t.procs ≡ qs
        → Scanned me copied ps (reaped pid) qs gs
        → PidsOk t
    go e f (reaps before p rest a x c) = emptied_pid before p _ rest e f refl refl n h

waited :
    {me : ℕ} {copied : Bool} {s : Kernel} {p : Proc} {out : Outcome (WaitEnd × Kernel)}
    → get_elem? s.procs me ≡ some p
    → is_unused p.state ≡ false
    → PidsOk s
    → Waited me copied s p out
    → LeavesOk out
waited at live h (reaps_child scanned) = reaped_pids h scanned refl
waited at live h (cannot_copy scanned) = same_pids refl refl h.named h
waited at live h (no_child n) = same_pids refl refl h.named h
waited at live h (was_killed n k) = same_pids refl refl h.named h
waited {me} {copied} {s} {p} at live h (sleeps n a k) =
    same_pids (set-pids s.procs me p _ at refl) refl
      (AllNamed-set s.procs me _
        (λ z. absurd (not_both (AllNamed-at s.procs me p h.named at z) live)) h.named)
      h

-- A call of kernel/proc.c on any hart, of `allocproc` while `nextpid` does not overflow and of `wait` by
-- a process that is in use, or a write to a slot that leaves its pid alone and does not put it in or out
-- of use: the lock and the rest of a slot, and which hart runs, are free to change between calls.
pub data Step : Kernel → Kernel → Type 0 where
  wakes : {s t : Kernel} (ch : Chan) → Quiet s → wakeup ch s ≡ ok t → Step s t
  kills : {s t : Kernel} (pid : ℕ) (b : Bool) → Quiet s → kill pid s ≡ ok (b, t) → Step s t
  allocates :
      {s t : Kernel} (trapframe pagetable : Option ℕ) (forkret : ℕ) (r : Option ℕ)
      → Quiet s
      → s.nextpid + 1 < 2 ^ 31
      → allocproc trapframe pagetable forkret s ≡ ok (r, t)
      → Step s t
  waits :
      {s t : Kernel} (me : ℕ) (copied : Bool) (p : Proc) (e : WaitEnd)
      → Quiet s
      → s.cpu.noff ≡ 0
      → get_elem? s.procs me ≡ some p
      → is_unused p.state ≡ false
      → wait me copied s ≡ ok (e, t)
      → Step s t
  writes :
      {s : Kernel} (i : ℕ) (p q : Proc) (c : Cpu) (current : Option ℕ) (wait_lock : Spinlock)
      → get_elem? s.procs i ≡ some p
      → q.pid ≡ p.pid
      → is_unused q.state ≡ is_unused p.state
      → Step s
          (record s { cpu = c; current = current; wait_lock = wait_lock; procs = set s.procs i q })

pub data Reach : Kernel → Kernel → Type 0 where
  here : {s : Kernel} → Reach s s
  after : {s t u : Kernel} → Step s t → Reach t u → Reach s u

Step-PidsOk : {s t : Kernel} → Step s t → PidsOk s → PidsOk t
Step-PidsOk {s} {t} (wakes ch q e) h =
    let w = wakeup-Woke ch s q.settled q.slots in
    let woken : PidsOk (record s { cpu = w.last; procs = w.procs }) =
      same_pids (Each-pids ch s.current 0 s.procs w.procs w.each) refl
        (Each-AllNamed ch s.current 0 s.procs w.procs w.each h.named) h in
    subst (λ o. LeavesOk o) (ap (λ o. do t' ← o; ok (tt, t')) (sym w.runs ∙ e)) woken
Step-PidsOk {s} {t} (kills pid b q e) h =
    let k = kill-KillEnd pid s q in
    let killed : PidsOk (record s { cpu = k.last; procs = k.procs }) =
      same_pids (Killing-pids k.kills) refl (Killing-AllNamed k.kills h.named) h in
    subst (λ o. LeavesOk o) (sym k.runs ∙ e) killed
Step-PidsOk {s} {t} (allocates trapframe pagetable forkret r q small e) h =
    subst (λ o. LeavesOk o) e
      (allocated h small (allocproc-Allocation trapframe pagetable forkret s q))
Step-PidsOk {s} {t} (waits me copied p e q level at live eq) h =
    subst (λ o. LeavesOk o) eq (waited at live h (wait-Waited me copied s p q level at))
Step-PidsOk {s} {t} (writes i p q c current wait_lock at same in_use) h =
    same_pids (set-pids s.procs i p q at same) refl
      (AllNamed-set s.procs i q (λ z. in_use ∙ AllNamed-at s.procs i p h.named at (sym same ∙ z))
        h.named)
      h

-- No two slots in use have the same pid.
abbrev pub Unique : List Proc → Type 0
Unique ps =
    (i j : ℕ) (p q : Proc)
    → get_elem? ps i ≡ some p
    → get_elem? ps j ≡ some q
    → is_unused p.state ≡ false
    → p.pid ≡ q.pid
    → i ≡ j

Missing-at :
    (n : ℕ) (ps : List Proc) (i : ℕ) (p : Proc)
    → Missing n (pids ps)
    → get_elem? ps i ≡ some p
    → p.pid ≢ n
Missing-at n [] i p h e = absurd (cc)
Missing-at n (x ∷ ps) zero p (a, _) e = subst (λ r. r.pid ≢ n) (some-injective _ _ e) a
Missing-at n (x ∷ ps) (suc i) p (_, h) e = Missing-at n ps i p h e

-- The slot in use is at the front.
front_alone :
    (x : Proc) (ps : List Proc) (j : ℕ) (q : Proc)
    → IsNamed x
    → (x.pid ≡ 0) ⊎ Missing x.pid (pids ps)
    → get_elem? ps j ≡ some q
    → is_unused x.state ≡ false
    → x.pid ≢ q.pid
front_alone x ps j q n (inl z) at live e = let idle = n z in absurd (cc)
front_alone x ps j q n (inr m) at live e = Missing-at x.pid ps j q m at (sym e)

Distinct-Unique : (ps : List Proc) → AllNamed ps → Distinct (pids ps) → Unique ps
Distinct-Unique [] n d i j p q a b live e = absurd (cc)
Distinct-Unique (x ∷ ps) n d zero zero p q a b live e = refl
Distinct-Unique (x ∷ ps) n d zero (suc j) p q a b live e =
    let is = some-injective _ _ a in
    absurd (
      front_alone x ps j q n.0 d.0 b (ap (λ r. is_unused r.state) is ∙ live)
        (ap (λ r. r.pid) is ∙ e))
Distinct-Unique (x ∷ ps) n d (suc i) zero p q a b live e =
    let is = some-injective _ _ b in
    let at_front = AllNamed-at ps i p n.1 a in
    absurd (front_behind x ps i p n.0 at_front d.0 a live (e ∙ ap (λ r. r.pid) (sym is)))
  where
    front_behind :
        (x : Proc) (ps : List Proc) (i : ℕ) (p : Proc)
        → IsNamed x
        → IsNamed p
        → (x.pid ≡ 0) ⊎ Missing x.pid (pids ps)
        → get_elem? ps i ≡ some p
        → is_unused p.state ≡ false
        → p.pid ≢ x.pid
    front_behind x ps i p n m (inl z) at live e = let idle = m (e ∙ z) in absurd (cc)
    front_behind x ps i p n m (inr miss) at live e = Missing-at x.pid ps i p miss at e
Distinct-Unique (x ∷ ps) n d (suc i) (suc j) p q a b live e =
    ap suc (Distinct-Unique ps n.1 d.1 i j p q a b live e)

Reach_keeps : {s t : Kernel} → Reach s t → PidsOk s → PidsOk t
Reach_keeps here h = h
Reach_keeps (after step rest) h = Reach_keeps rest (Step-PidsOk step h)

-- However calls of `wakeup`, `kill`, `allocproc` and `wait` and writes that leave the pids and the use of
-- slots alone follow each other, as long as `nextpid` does not overflow: no slot in use has the pid of
-- another slot, only unused slots have the pid 0, and no pid that is still to be given out is in use.
pub Reach-PidsOk : {s t : Kernel} → Reach s t → PidsOk s → PidsOk t × Unique t.procs
Reach-PidsOk r h = let k = Reach_keeps r h in (k, Distinct-Unique _ k.named k.distinct)
