-- ===== src/Sleeplock/Owner.antt =====
-- Who holds a sleep lock of kernel/sleeplock.c, and who is woken when it is given back.
use os_project_cs.Prelude.{
  ℕ, ◌≡◌, refl, ◌∙◌, Bool, true, false, ◌&&◌, List, some, ◌==◌, if◌then◌else◌, get_elem?, set, ap,
}
use os_project_cs.Outcome.{ok}
use os_project_cs.Spinlock.{Cpu, push_off}
use os_project_cs.Spinlock.Nesting.{IsSettled, push_off_step}
use os_project_cs.Spinlock.Section.{unlocked, locked_by, after, release_held}
use os_project_cs.Proc.{Proc, Kernel, sleeping, Chan, myproc, wakeup}
use os_project_cs.Proc.Quiet.{AllFree, Quiet, acquire_slot, after-push_off, myproc_lem}
use os_project_cs.Proc.Wakeup.{Each, wakeup-Woke}
use os_project_cs.Proc.Wait.{at_slot-some}
use os_project_cs.Proc.Wait.Switch.{sleep_lem}
use os_project_cs.Proc.Wait.Ends.{AllFree-at}
use os_project_cs.Sleeplock.{
  Sleeplock, entered, asleep, acquiresleep, releasesleep, holdingsleep, my_pid,
}

-- The lock between two calls, with its holder.
abbrev pub lock_of : Bool → ℕ → Sleeplock
lock_of locked pid = record { locked = locked; lk = unlocked; pid = pid }

-- Inside a critical section, `myproc` changes nothing.
my_pid_lem :
    (me : ℕ) (s : Kernel) (c : Cpu) (p : Proc)
    → IsSettled c
    → get_elem? s.procs me ≡ some p
    → s.cpu ≡ push_off c
    → my_pid me s ≡ ok (p.pid, record s { cpu = push_off c })
my_pid_lem me s c p h at inside =
    let found : myproc (push_off c) ≡ ok (push_off c) =
      myproc_lem (push_off c) (push_off_step c).settled ∙ ap ok (after-push_off c) in
    rw (inside, found) (at_slot-some s me p _ at)

module _ (me addr : ℕ) (s : Kernel) (p : Proc) (q : Quiet s)
    (at : get_elem? s.procs me ≡ some p) where
  -- With the locks of kernel/proc.c and the lock's own spin lock free, `acquiresleep` takes a lock
  -- that no process holds in the name of the caller, and otherwise puts the caller to sleep on the
  -- lock's address, with the lock of its slot held and no other. Nothing else changes.
  pub acquiresleep_lem :
      (locked : Bool) (owner : ℕ)
      → s.cpu.noff ≡ 0
      → acquiresleep me addr (lock_of locked owner) s
        ≡ ok (
            if locked
            then (
              asleep,
              lock_of true owner,
              record s {
                cpu = push_off s.cpu;
                procs = set s.procs me (record p {
                  lock = locked_by s.cpu;
                  chan = Chan.address addr;
                  state = sleeping;
                });
              },
            )
            else (entered, lock_of true p.pid, record s { cpu = after s.cpu }))
  unfolding acquiresleep
  acquiresleep_lem true owner level =
      rw
        (
          acquire_slot s.cpu unlocked refl,
          sleep_lem me (Chan.address addr) (record s { cpu = push_off s.cpu }) s.cpu p at
              (AllFree-at s.procs me p q.slots at) q.settled level refl,
        )
        refl
  acquiresleep_lem false owner level =
      rw
        (
          acquire_slot s.cpu unlocked refl,
          my_pid_lem me (record s { cpu = push_off s.cpu }) s.cpu p q.settled at refl,
          release_held s.cpu q.settled,
        )
        refl

  -- `holdingsleep` says whether the lock is held in the name of the caller's pid, and changes nothing.
  pub holdingsleep_lem :
      (locked : Bool) (owner : ℕ)
      → holdingsleep me (lock_of locked owner) s
        ≡ ok (locked && (owner == p.pid), lock_of locked owner, record s { cpu = after s.cpu })
  unfolding holdingsleep
  holdingsleep_lem true owner =
      rw
        (
          acquire_slot s.cpu unlocked refl,
          my_pid_lem me (record s { cpu = push_off s.cpu }) s.cpu p q.settled at refl,
          release_held s.cpu q.settled,
        )
        refl
  holdingsleep_lem false owner =
      rw (acquire_slot s.cpu unlocked refl, release_held s.cpu q.settled) refl

-- The end of `releasesleep`.
pub record Released (addr : ℕ) (l : Sleeplock) (s : Kernel) : Type 0 where
  pub procs : List Proc
  pub runs :
      releasesleep addr l s ≡ ok (lock_of false 0, record s { cpu = after s.cpu; procs = procs })
  pub each : Each (Chan.address addr) s.current 0 s.procs procs
  pub free : AllFree procs

-- `releasesleep` frees the lock and makes exactly the processes that sleep on its address runnable,
-- the one that runs excepted. It does not look at who holds the lock.
pub releasesleep-Released :
    (addr : ℕ) (locked : Bool) (owner : ℕ) (s : Kernel)
    → Quiet s
    → Released addr (lock_of locked owner) s
unfolding releasesleep
releasesleep-Released addr locked owner s q =
    let inside : Kernel = record s { cpu = push_off s.cpu } in
    let w = wakeup-Woke (Chan.address addr) inside (push_off_step s.cpu).settled q.slots in
    let woken : wakeup (Chan.address addr) inside ≡ ok (record inside { procs = w.procs }) =
      w.runs
      ∙ ap (λ c. ok (record inside { cpu = c; procs = w.procs }))
          (w.exact (after-push_off s.cpu)) in
    record {
      procs = w.procs;
      runs = rw (acquire_slot s.cpu unlocked refl, woken, release_held s.cpu q.settled) refl;
      each = w.each;
      free = w.free;
    }
