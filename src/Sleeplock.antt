-- ===== src/Sleeplock.antt =====
-- kernel/sleeplock.c: a lock that a process waits for asleep. The functions take the lock, its
-- address, which is the channel slept on, and the state of kernel/proc.c.
pub mod Owner
mod Tests
use os_project_cs.Prelude.{ℕ, Bool, true, false, not, ◌&&◌, ◌==◌, if◌then◌else◌, some, none, Option}
use os_project_cs.Outcome.{Outcome, ok, blocked, ◌>>=◌}
use os_project_cs.Spinlock.{Spinlock, initlock, acquire, release}
use os_project_cs.Proc.{Proc, Kernel, Chan, myproc, wakeup}
use os_project_cs.Proc.Wait.{at_slot, sleep}

-- `struct sleeplock` without its name.
pub record Sleeplock : Type 0 where
  pub locked : Bool
  pub lk : Spinlock
  pub pid : ℕ

unfoldable pub initsleeplock : Sleeplock → Sleeplock
unfolding initlock
initsleeplock l = record { locked = false; lk = initlock l.lk; pid = 0 }

-- `myproc()->pid` for the process at slot `me`.
abbrev pub my_pid : ℕ → Kernel → Outcome (ℕ × Kernel)
my_pid me s = do c ← myproc s.cpu; at_slot s me (λ p. ok (p.pid, record s { cpu = c }))

-- How a pass of `acquiresleep` ends: with the lock, or asleep.
pub data Entry : Type 0 where
  entered asleep : Entry

-- `acquiresleep` for the process at slot `me`, until it returns or sleeps.
unfoldable pub acquiresleep : ℕ → ℕ → Sleeplock → Kernel → Outcome (Entry × Sleeplock × Kernel)
unfolding sleep myproc
acquiresleep me addr l s = do
  (c, lk) ← acquire s.cpu l.lk
  if l.locked
      then (do
        (lk', s') ← sleep me (Chan.address addr) lk (record s { cpu = c })
        ok (asleep, record l { lk = lk' }, s'))
      else (do
        (pid, s') ← my_pid me (record s { cpu = c })
        (c', lk') ← release s'.cpu lk
        ok (entered, record { locked = true; lk = lk'; pid = pid }, record s' { cpu = c' }))

unfoldable pub releasesleep : ℕ → Sleeplock → Kernel → Outcome (Sleeplock × Kernel)
unfolding wakeup
releasesleep addr l s = do
  (c, lk) ← acquire s.cpu l.lk
  s' ← wakeup (Chan.address addr) (record s { cpu = c })
  (c', lk') ← release s'.cpu lk
  ok (record { locked = false; lk = lk'; pid = 0 }, record s' { cpu = c' })

-- `holdingsleep` for the process at slot `me`; `myproc` is called only if the lock is held.
unfoldable pub holdingsleep : ℕ → Sleeplock → Kernel → Outcome (Bool × Sleeplock × Kernel)
unfolding myproc
holdingsleep me l s = do
  (c, lk) ← acquire s.cpu l.lk
  let s' = record s { cpu = c }
  (r, s'') ←
      (if l.locked then (do (pid, t) ← my_pid me s'; ok (l.pid == pid, t)) else ok (false, s'))
  (c', lk') ← release s''.cpu lk
  ok (r, record l { lk = lk' }, record s'' { cpu = c' })
