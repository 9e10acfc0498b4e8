-- ===== src/Log/Calls.antt =====
-- What a call of `log_write` or `end_op` of kernel/log.c does to the log, on every branch.
use os_project_cs.Prelude.{
  ℕ, ◌+◌, ◌-◌, ◌≤◌, ◌<◌, ◌≡◌, refl, true, false, arith, le→ltb-false, lt→leb-false, ==_ne, ◌≢◌,
  ℕ_discrete, lt→ltb, ◌==◌, if◌then◌else◌, dec_lt, update,
}
use os_project_cs.Outcome.{ok}
use os_project_cs.Spinlock.Section.{
  IsFree, acquire_free, release_held, after, unlocked, after-IsFree,
}
use os_project_cs.Log.{
  Log, log_size, absorb, bpin, end_begin, end_commit, end_op, log_write, commit,
}

-- What `log_write` does for an operation that has begun, if there is room.
pub record Wrote (b : ℕ) (l : Log) : Type 0 where
  pub next : Log
  pub runs : log_write b l ≡ ok next
  pub free : IsFree next.cpu next.lock
  pub idle : next.committing ≡ l.committing
  pub outstanding : next.outstanding ≡ l.outstanding
  pub size : next.size ≡ l.size
  pub grows : next.lh.n ≤ l.lh.n + 1

pub log_write-Wrote :
    (b : ℕ) (l : Log)
    → IsFree l.cpu l.lock
    → 0 < l.outstanding
    → l.lh.n < log_size
    → l.lh.n + 1 < l.size
    → Wrote b l
unfolding log_write
log_write-Wrote b l f begun room fits = record {
  next =
      (let i = absorb l.lh.n 0 l.lh.block b in
        record l {
          cpu = after l.cpu;
          lock = unlocked;
          lh = record {
            n = if i == l.lh.n then l.lh.n + 1 else l.lh.n;
            block = update l.lh.block i b;
          };
          cache = if i == l.lh.n then bpin b l.cache else l.cache;
        });
  runs = rw (
    acquire_free l.cpu l.lock f.unlocked,
    lt→leb-false log_size l.lh.n room,
    lt→leb-false (l.size - 1) l.lh.n (omega arith),
    le→ltb-false l.outstanding 1 begun,
    release_held l.cpu f.settled,
  );
  free = after-IsFree l.cpu f.settled;
  idle = refl;
  outstanding = refl;
  size = refl;
  grows = ground arith;
}

-- `commit` empties the transaction and touches nothing else but the cache.
pub record Emptied (l l' : Log) : Type 0 where
  pub none_left : l'.lh.n ≡ 0
  pub cpu : l'.cpu ≡ l.cpu
  pub lock : l'.lock ≡ l.lock
  pub committing : l'.committing ≡ l.committing
  pub outstanding : l'.outstanding ≡ l.outstanding
  pub size : l'.size ≡ l.size

pub commit-Emptied : (l : Log) → Emptied l (commit l)
unfolding commit
commit-Emptied l = elim (dec_lt 0 l.lh.n) [
  | yes some_left ↦ rw (lt→ltb 0 l.lh.n some_left) (record {
    none_left = refl;
    cpu = refl;
    lock = refl;
    committing = refl;
    outstanding = refl;
    size = refl;
  })
  | no none_left ↦ rw (le→ltb-false 0 l.lh.n (omega arith)) (record {
    none_left = omega arith;
    cpu = refl;
    lock = refl;
    committing = refl;
    outstanding = refl;
    size = refl;
  })
]

-- What `end_op` does for an operation that has begun.
pub record Ended (l : Log) : Type 0 where
  pub next : Log
  pub runs : end_op l ≡ ok next
  pub free : IsFree next.cpu next.lock
  pub idle : next.committing ≡ false
  pub outstanding : next.outstanding + 1 ≡ l.outstanding
  pub size : next.size ≡ l.size
  pub shrinks : next.lh.n ≤ l.lh.n

abbrev pub reopened : Log → Log
reopened m = record m {
  cpu = after m.cpu;
  lock = unlocked;
  committing = false;
  wakeups = m.wakeups + 1;
}

pub end_commit-reopened : (m : Log) → IsFree m.cpu m.lock → end_commit m ≡ ok (reopened m)
unfolding end_commit
end_commit-reopened m f = rw (acquire_free m.cpu m.lock f.unlocked, release_held m.cpu f.settled)

-- The log that `end_op` goes on to commit, and the one that it leaves to the operations still running.
abbrev pub closing : Log → Log
closing l = record l {
  cpu = after l.cpu;
  lock = unlocked;
  outstanding = l.outstanding - 1;
  committing = true;
}

abbrev pub left_open : Log → Log
left_open l = record l {
  cpu = after l.cpu;
  lock = unlocked;
  outstanding = l.outstanding - 1;
  committing = false;
  wakeups = l.wakeups + 1;
}

pub end_begin_last :
    (l : Log)
    → IsFree l.cpu l.lock
    → l.committing ≡ false
    → l.outstanding ≡ 1
    → end_begin l ≡ ok (true, closing l)
unfolding end_begin
end_begin_last l f idle last =
    let e : (l.outstanding == 1) ≡ true = ground arith in
    rw (acquire_free l.cpu l.lock f.unlocked, idle, release_held l.cpu f.settled, e) refl

pub end_begin_others :
    (l : Log)
    → IsFree l.cpu l.lock
    → l.committing ≡ false
    → l.outstanding ≢ 1
    → end_begin l ≡ ok (false, left_open l)
unfolding end_begin
end_begin_others l f idle more =
    rw
      (
        acquire_free l.cpu l.lock f.unlocked,
        idle,
        release_held l.cpu f.settled,
        ==_ne l.outstanding 1 more,
      )
      refl

pub end_op-Ended :
    (l : Log) → IsFree l.cpu l.lock → l.committing ≡ false → 0 < l.outstanding → Ended l
unfolding end_op
end_op-Ended l f idle begun = elim (ℕ_discrete l.outstanding 1) [
  | yes last ↦
      let m = commit (closing l) in
      let e = commit-Emptied (closing l) in
      let mf : IsFree m.cpu m.lock = rw (e.cpu, e.lock) (after-IsFree l.cpu f.settled) in
      record {
        next = reopened m;
        runs = rw (end_begin_last l f idle last) (end_commit-reopened m mf);
        free = after-IsFree m.cpu mf.settled;
        idle = refl;
        outstanding = omega (arith, e.outstanding);
        size = e.size;
        shrinks = omega (arith, e.none_left);
      }
  | no more ↦ record {
    next = left_open l;
    runs = rw (end_begin_others l f idle more) refl;
    free = after-IsFree l.cpu f.settled;
    idle = refl;
    outstanding = omega arith;
    size = refl;
    shrinks = omega arith;
  }
]
