-- ===== src/Pipe/Close.antt =====
-- `pipeclose` of kernel/pipe.c.
use os_project_cs.Prelude.{
  ℕ, ◌≡◌, refl, Bool, true, false, not, ◌&&◌, List, ◌∷◌, if◌then◌else◌, arith,
}
use os_project_cs.Outcome.{ok}
use os_project_cs.Spinlock.Section.{acquire_free, release_held, after, unlocked, after-IsFree}
use os_project_cs.Pipe.{Chan, Pipe, pipeclose}
use os_project_cs.Pipe.Ring.{Inv}

-- What closing one end leaves.
pub record Closed (writable : Bool) (s : Pipe) (q : List ℕ) : Type 0 where
  pub frees : Bool
  pub next : Pipe
  pub runs : pipeclose writable s ≡ ok (frees, next)
  pub inv : Inv next q
  pub writeopen : next.writeopen ≡ (not writable && s.writeopen)
  pub readopen : next.readopen ≡ (writable && s.readopen)
  pub woken : next.woken ≡ (if writable then Chan.nread_chan else Chan.nwrite_chan) ∷ s.woken
  pub last_end : frees ≡ (if writable then not s.readopen else not s.writeopen)

-- Closing an end of a pipe closes that end and leaves the other as it was, keeps the bytes, wakes
-- those who sleep at the other end, and frees the page of the pipe exactly if the other end was closed
-- before. The lock is free again.
pub pipeclose-Closed : (writable : Bool) (s : Pipe) (q : List ℕ) → Inv s q → Closed writable s q
unfolding pipeclose
pipeclose-Closed true s q inv = record {
  frees = not s.readopen && true;
  next = record s {
    cpu = after s.cpu;
    lock = unlocked;
    writeopen = false;
    woken = Chan.nread_chan ∷ s.woken;
  };
  runs = rw (acquire_free s.cpu s.lock inv.free.unlocked, release_held s.cpu inv.free.settled);
  inv = record {
    free = after-IsFree s.cpu inv.free.settled;
    array = inv.array;
    small = inv.small;
    bounded = inv.bounded;
    written = inv.written;
    holds = inv.holds;
  };
  writeopen = refl;
  readopen = refl;
  woken = refl;
  last_end = ground arith;
}
pipeclose-Closed false s q inv = record {
  frees = true && not s.writeopen;
  next = record s {
    cpu = after s.cpu;
    lock = unlocked;
    readopen = false;
    woken = Chan.nwrite_chan ∷ s.woken;
  };
  runs = rw (acquire_free s.cpu s.lock inv.free.unlocked, release_held s.cpu inv.free.settled);
  inv = record {
    free = after-IsFree s.cpu inv.free.settled;
    array = inv.array;
    small = inv.small;
    bounded = inv.bounded;
    written = inv.written;
    holds = inv.holds;
  };
  writeopen = refl;
  readopen = refl;
  woken = refl;
  last_end = refl;
}
