-- ===== src/Proc/Exit/Ends.antt =====
-- The end of `exit` of kernel/proc.c.
use os_project_cs.Prelude.{
  ℕ, zero, suc, ◌+◌, ◌<◌, ◌≡◌, ◌≢◌, refl, ◌∙◌, sym, ap, subst, true, false, not, ◌&&◌, List, [],
  ◌∷◌, some, ◌==◌, leb, if◌then◌else◌, get_elem?, set, length, arith, get_elem?-set_self,
  get_elem?-set_ne, get_elem?-bound, ==_ne,
}
use mathlib.Core.Option.{some-injective, none-ne-some}
use os_project_cs.Outcome.{ok}
use os_project_cs.Spinlock.{Cpu, is_cpu, push_off, release}
use os_project_cs.Spinlock.Nesting.{IsSettled, push_off_step}
use os_project_cs.Spinlock.Section.{unlocked, locked_by, release_held}
use os_project_cs.Proc.{Proc, Kernel, zombie, Chan, slot}
use os_project_cs.Proc.Quiet.{AllFree, Quiet, acquire_slot, after-push_off}
use os_project_cs.Proc.Wakeup.{waits_on, Each, Woke, wakeup-Woke}
use os_project_cs.Proc.Wait.{at_slot-some, sched}
use os_project_cs.Proc.Wait.Switch.{sched_allows, held_alone}
use os_project_cs.Proc.Exit.{wake_parent, die, exit, parent_chan}
use os_project_cs.Proc.Exit.Follows.{Each-at, Follows, Follows-trans, woken-Follows, waits-Follows}
use os_project_cs.Proc.Exit.Adopted.{Adopted, woken_awake, woken_parent}
use os_project_cs.Proc.Exit.Orphans.{Reparented, reparent-Reparented, slot_there}

-- What the process leaves at slot `me`.
abbrev pub left_behind : ℕ → Cpu → Proc → Proc
left_behind status c p = record p { lock = locked_by c; xstate = status; state = zombie }

pub record Exited (me status : ℕ) (s : Kernel) (p : Proc) : Type 0 where
  pub procs : List Proc
  pub runs :
      exit me status s ≡ ok (record s { cpu = push_off s.cpu; procs = procs; wait_lock = unlocked })
  pub is_zombie :
      (q : Proc)
      → get_elem? procs me ≡ some q
      → (q.state ≡ zombie) × (q.xstate ≡ status) × (q.lock ≡ locked_by s.cpu) × (q.pid ≡ p.pid)
  pub others :
      (i : ℕ) (q : Proc)
      → i ≢ me
      → get_elem? procs i ≡ some q
      → (o : Proc) × (get_elem? s.procs i ≡ some o)
        × Follows o q
        × (q.parent ≡ (if is_cpu o.parent me then some s.initproc else o.parent))
  pub parent_awake :
      (i : ℕ) (q : Proc)
      → i ≢ me
      → p.parent ≡ some i
      → get_elem? procs i ≡ some q
      → waits_on (slot i) q ≡ false
  pub init_awake :
      (i : ℕ) (o q : Proc)
      → get_elem? s.procs i ≡ some o
      → is_cpu o.parent me ≡ true
      → get_elem? procs s.initproc ≡ some q
      → waits_on (slot s.initproc) q ≡ false

-- The lock taken before another is given back first.
release_outer :
    (c : Cpu)
    → IsSettled c
    → c.noff ≡ 0
    → release (push_off (push_off c)) (locked_by c) ≡ ok (push_off c, unlocked)
release_outer c h level =
    ap (λ n. release (push_off (push_off c)) (record { locked = true; cpu = some n }))
      (sym (held_alone c level).3)
    ∙ release_held (push_off c) (push_off_step c).settled
    ∙ ap (λ c'. ok (c', unlocked)) (after-push_off c)

-- The end of `exit`: the slot of the process is a zombie, with its lock, which is the only one.
die_lem :
    (me status : ℕ) (s : Kernel) (c : Cpu) (procs : List Proc) (p : Proc)
    → IsSettled c
    → c.noff ≡ 0
    → get_elem? procs me ≡ some p
    → p.lock ≡ unlocked
    → die me status (record s { cpu = push_off c; wait_lock = locked_by c; procs = procs })
      ≡ ok (record s {
        cpu = push_off c;
        wait_lock = unlocked;
        procs = set procs me (left_behind status c p);
      })
unfolding die push_off
die_lem me status s c procs p settled level at free =
    let mine = left_behind status c p in
    let t : Kernel = record s {
      cpu = push_off c;
      wait_lock = unlocked;
      procs = set procs me mine;
    } in
    let switched : sched me t ≡ ok t =
      sched_allows me t mine (get_elem?-set_self procs me mine (get_elem?-bound procs me at))
        (held_alone c level).0 (held_alone c level).1 refl (held_alone c level).2 in
    at_slot-some (record s { cpu = push_off c; wait_lock = locked_by c; procs = procs }) me p _ at
    ∙ rw (acquire_slot (push_off c) p.lock free, release_outer c settled level, switched) refl

-- A slot after `reparent` and after the parent is woken.
two_steps :
    (me : ℕ) (s : Kernel) (ch : Chan) (mid last : List Proc)
    → Adopted me 0 s mid
    → Each ch s.current 0 mid last
    → (i : ℕ) (q : Proc) → get_elem? last i ≡ some q
    → (o : Proc) × (get_elem? s.procs i ≡ some o)
      × Follows o q
      × (q.parent ≡ (if is_cpu o.parent me then some s.initproc else o.parent))
two_steps me s ch mid last adopted each i q there =
    let w = Each-at ch s.current 0 mid last i q each there in
    let b = not (is_cpu s.current (0 + i)) in
    let a = adopted.each i (w.0) (w.1) in
    let g = subst (Follows (w.0)) (sym (w.2)) (woken-Follows b ch (w.0)) in
    let low : leb 0 i ≡ true = ground arith in
    (
      a.0,
      a.1,
      Follows-trans (a.0) (w.0) q (a.2) g,
      woken_parent (b && waits_on ch (w.0)) (w.0) q (w.2) ∙ a.3 ∙ rw low refl,
    )

module _ (me status : ℕ) (s : Kernel) (p : Proc) (quiet : Quiet s) (level : s.cpu.noff ≡ 0)
    (current : s.current ≡ some me) (not_init : me ≢ s.initproc)
    (at : get_elem? s.procs me ≡ some p) (not_own : is_cpu p.parent me ≡ false) where
  finish :
      (r : Reparented me (record s { cpu = push_off s.cpu; wait_lock = locked_by s.cpu }))
      (p1 : Proc)
      → get_elem? r.procs me ≡ some p1
      → p1.parent ≡ p.parent
      → (w : Woke
          (parent_chan p1.parent)
          (record s { cpu = push_off s.cpu; wait_lock = locked_by s.cpu; procs = r.procs }))
      → (p2 : Proc) → get_elem? w.procs me ≡ some p2
      → p2.pid ≡ p.pid
      → p2.lock ≡ unlocked
      → Exited me status s p
  unfolding exit
  finish r p1 at1 parent1 w p2 at2 pid2 lock2 = record {
    procs = set w.procs me mine;
    runs =
        rw
          (
            test,
            acquire_slot s.cpu s.wait_lock quiet.waits,
            r.runs,
            woke,
            die_lem me status s s.cpu w.procs p2 quiet.settled level at2 lock2,
          )
          refl;
    is_zombie = λ q there.
        let is : mine ≡ q = some-injective _ _ (sym self ∙ there) in
        subst
          (λ x.
            (x.state ≡ zombie) × (x.xstate ≡ status) × (x.lock ≡ locked_by s.cpu) × (x.pid ≡ p.pid))
          is (refl, refl, refl, pid2);
    others = λ i q ne there. slots i q (elsewhere i q ne there);
    parent_awake = λ i q ne own there.
        let e =
          Each-at (parent_chan p1.parent) s.current 0 r.procs w.procs i q w.each
            (elsewhere i q ne there) in
        let chan : parent_chan p1.parent ≡ slot i = ap parent_chan (parent1 ∙ own) in
        woken_awake (slot i) (e.0) q (e.2 ∙ rw (other_slot i ne, chan) refl);
    init_awake = λ i o q old kid there.
        let q_there = elsewhere s.initproc q (λ f. not_init (sym f)) there in
        let e =
          Each-at (parent_chan p1.parent) s.current 0 r.procs w.procs s.initproc q w.each q_there in
        let b = not (is_cpu s.current (0 + s.initproc)) in
        let g = subst (Follows (e.0)) (sym (e.2)) (woken-Follows b (parent_chan p1.parent) (e.0)) in
        waits-Follows (slot s.initproc) (e.0) q g
          (r.adopted.init_awake i o (e.0) (omega arith) old kid (other_init) (e.1));
  }
    where
      mine : Proc
      mine = left_behind status s.cpu p2

      s1 : Kernel
      s1 = record s { cpu = push_off s.cpu; wait_lock = locked_by s.cpu; procs = r.procs }

      woke :
          wake_parent me s1
          ≡ ok (record s { cpu = push_off s.cpu; wait_lock = locked_by s.cpu; procs = w.procs })
      woke =
          at_slot-some s1 me p1 _ at1
          ∙ w.runs
          ∙ ap (λ c. ok (record s { cpu = c; wait_lock = locked_by s.cpu; procs = w.procs }))
              (w.exact (after-push_off s.cpu))

      test : (me == s.initproc) ≡ false
      test = ==_ne me s.initproc not_init

      self : get_elem? (set w.procs me mine) me ≡ some mine
      self = get_elem?-set_self w.procs me mine (get_elem?-bound w.procs me at2)

      elsewhere :
          (i : ℕ) (q : Proc)
          → i ≢ me
          → get_elem? (set w.procs me mine) i ≡ some q
          → get_elem? w.procs i ≡ some q
      elsewhere i q ne there = sym (get_elem?-set_ne w.procs mine (λ e. ne (sym e))) ∙ there

      slots :
          (i : ℕ) (q : Proc)
          → get_elem? w.procs i ≡ some q
          → (o : Proc) × (get_elem? s.procs i ≡ some o)
            × Follows o q
            × (q.parent ≡ (if is_cpu o.parent me then some s.initproc else o.parent))
      slots =
          two_steps me (record s { cpu = push_off s.cpu; wait_lock = locked_by s.cpu })
            (parent_chan p1.parent) r.procs w.procs r.adopted w.each

      other_slot : (i : ℕ) → i ≢ me → is_cpu s.current (0 + i) ≡ false
      other_slot i ne =
          let z : 0 + i ≡ i = omega arith in rw (current, z) (==_ne me i (λ e. ne (sym e)))

      other_init : is_cpu s.current s.initproc ≡ false
      other_init = rw current (==_ne me s.initproc not_init)

-- The lock of a slot is free.
lock_at :
    (ps : List Proc) (i : ℕ) (p : Proc) → AllFree ps → get_elem? ps i ≡ some p → p.lock ≡ unlocked
lock_at [] i p h at = absurd (none-ne-some _ at)
lock_at (x ∷ ps) zero p h at = ap (λ y. y.lock) (sym (some-injective _ _ at)) ∙ h.0
lock_at (x ∷ ps) (suc i) p h at = lock_at ps i p h.1 at

-- The exit of a process other than init, with every lock of the table free, reaches the scheduler
-- without a panic: the process is a zombie with its status, and holds only its own lock; exactly its
-- children now have init as parent; and no wakeup is lost, for neither its parent nor, if it had
-- children, init sleeps on in `wait`. Other processes change only from sleeping to runnable.
pub exit-Exited :
    (me status : ℕ) (s : Kernel) (p : Proc)
    → Quiet s
    → s.cpu.noff ≡ 0
    → s.current ≡ some me
    → me ≢ s.initproc
    → get_elem? s.procs me ≡ some p
    → is_cpu p.parent me ≡ false
    → Exited me status s p
exit-Exited me status s p quiet level current not_init at not_own = go (
    reparent-Reparented me (record s { cpu = push_off s.cpu; wait_lock = locked_by s.cpu })
      (push_off_step s.cpu).settled (after-push_off s.cpu) quiet.slots)
  where
    in_table : me < length s.procs
    in_table = get_elem?-bound s.procs me at

    go :
        Reparented me (record s { cpu = push_off s.cpu; wait_lock = locked_by s.cpu })
        → Exited me status s p
    go r =
        let slots = r.adopted.same_slots in
        let l = in_table in
        let one = slot_there r.procs me (omega arith) in
        let p1 = one.0 in
        let a = r.adopted.each me p1 (one.1) in
        let is : a.0 ≡ p = some-injective _ _ (sym (a.1) ∙ at) in
        let not_child : is_cpu (a.0).parent me ≡ false =
          subst (λ x. is_cpu x.parent me ≡ false) (sym is) not_own in
        let own : (leb 0 me && is_cpu (a.0).parent me) ≡ false = ground arith in
        let parent1 : p1.parent ≡ p.parent = a.3 ∙ rw own (ap (λ x. x.parent) is) in
        let w =
          wakeup-Woke (parent_chan p1.parent)
            (record s { cpu = push_off s.cpu; wait_lock = locked_by s.cpu; procs = r.procs })
            (push_off_step s.cpu).settled r.adopted.free in
        let more = w.same_slots in
        let two = slot_there w.procs me (omega arith) in
        let b =
          two_steps me (record s { cpu = push_off s.cpu; wait_lock = locked_by s.cpu })
            (parent_chan p1.parent) r.procs w.procs r.adopted w.each me (two.0) (two.1) in
        let is2 : b.0 ≡ p = some-injective _ _ (sym (b.1) ∙ at) in
        let pid2 : (two.0).pid ≡ p.pid = ap (λ x. x.pid) (b.2).same ∙ ap (λ x. x.pid) is2 in
        finish me status s p quiet level current not_init at not_own r p1 (one.1) parent1 w (two.0)
          (two.1) pid2 (lock_at w.procs me (two.0) w.free (two.1))
