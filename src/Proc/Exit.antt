-- ===== src/Proc/Exit.antt =====
-- `reparent` and the end of `exit` of kernel/proc.c, after the files of the process are closed, up to
-- the switch to the scheduler.
pub mod Follows
pub mod Adopted
pub mod Orphans
pub mod Ends
use os_project_cs.Prelude.{
  ℕ, zero, suc, ◌+◌, Bool, true, false, not, List, [], ◌∷◌, Option, none, some, ◌==◌, if◌then◌else◌,
  get_elem?, set, length,
}
use os_project_cs.Outcome.{Outcome, ok, panic, blocked, Message, ◌>>=◌}
use os_project_cs.Spinlock.{is_cpu, acquire, release}
use os_project_cs.Proc.{Proc, Kernel, zombie, Chan, null, slot, wakeup}
use os_project_cs.Proc.Wait.{at_slot, sched}

-- The round of `reparent` at a slot of a child of `me`: the child is given to init.
abbrev pub adopted : ℕ → Proc → Kernel → Kernel
adopted j pp s = record s { procs = set s.procs j (record pp { parent = some s.initproc }) }

-- The loop of `reparent` from slot `j` on, with `k` slots left.
unfoldable pub reparent_rounds : ℕ → ℕ → ℕ → Kernel → Outcome Kernel
unfolding wakeup
reparent_rounds zero j me s = ok s
reparent_rounds (suc k) j me s = at_slot s j (λ pp. do
  s' ← (if is_cpu pp.parent me then wakeup (slot s.initproc) (adopted j pp s) else ok s)
  reparent_rounds k (j + 1) me s')

unfoldable pub reparent : ℕ → Kernel → Outcome Kernel
unfolding reparent_rounds
reparent me s = reparent_rounds (length s.procs) 0 me s

-- The address of the parent as a channel.
abbrev pub parent_chan : Option ℕ → Chan
parent_chan none = null
parent_chan (some i) = slot i

-- `wakeup(p->parent)`.
unfoldable pub wake_parent : ℕ → Kernel → Outcome Kernel
unfolding wakeup
wake_parent me s = at_slot s me (λ p. wakeup (parent_chan p.parent) s)

-- The end of `exit`, with `wait_lock` held, up to `swtch`.
unfoldable pub die : ℕ → ℕ → Kernel → Outcome Kernel
unfolding sched
die me status s = at_slot s me (λ p. do
  (c, lk) ← acquire s.cpu p.lock
  let p' = record p { lock = lk; xstate = status; state = zombie }
  (c', wl) ← release c s.wait_lock
  sched me (record s { cpu = c'; wait_lock = wl; procs = set s.procs me p' }))

-- `exit` of the process at slot `me`, without the closing of its files.
unfoldable pub exit : ℕ → ℕ → Kernel → Outcome Kernel
unfolding reparent wake_parent die
exit me status s = if me == s.initproc then panic Message.init_exiting else do
  (c, wl) ← acquire s.cpu s.wait_lock
  s1 ← reparent me (record s { cpu = c; wait_lock = wl })
  s2 ← wake_parent me s1
  die me status s2
