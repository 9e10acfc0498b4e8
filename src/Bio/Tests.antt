-- ===== src/Bio/Tests.antt =====
-- Runs of kernel/bio.c on a ring of two buffers, and on the ring that `binit` makes.
use os_project_cs.Prelude.{◌≡◌, refl, true, false, [], ◌∷◌, arith, if◌then◌else◌, ◌==◌}
use os_project_cs.Spinlock.Section.{IsFree, unlocked, after}
use os_project_cs.Bio.{Bcache, nbuf, bget, binit}
use os_project_cs.Prelude.{update}
use os_project_cs.Outcome.{ok}
use os_project_cs.Spinlock.{push_off, pop_off, holding, acquire, release}
use os_project_cs.Bio.Unique.{Cache, gets, here, next_step, binit-Reach-Cache}
use os_project_cs.Bio.Ring.{Ring}
use os_project_cs.Bio.Lru.{Dropped, brelse-Dropped}
use os_project_cs.Bio.Init.{count_up}
use os_project_cs.Bio.Get.{Got, bget-Got}

-- Buffer 4 and then 7; 7 caches block 33 of device 1 and has a user.
abbrev small : Bcache
small = record {
  cpu = record { id = 0; noff = 0; intena = false; intr = true };
  lock = unlocked;
  valid = λ b. true;
  dev = λ b. 1;
  blockno = λ b. if b == 7 then 33 else 34;
  refcnt = λ b. if b == 7 then 1 else 0;
  prev = λ b. if b == nbuf then 7 else if b == 7 then 4 else nbuf;
  next = λ b. if b == nbuf then 4 else if b == 4 then 7 else nbuf;
}

small-Ring : Ring small (4 ∷ 7 ∷ [])
small-Ring = record {
  forwards = (refl, (refl, refl));
  backwards = (refl, (refl, refl));
  distinct = (((λ e. omega arith), ((λ e. omega arith), tt)), (((λ e. omega arith), tt), (tt, tt)));
}

small-IsFree : IsFree small.cpu small.lock
small-IsFree = record { settled = refl; unlocked = refl; unowned = refl }

bget-Got_example : Got 1 35 small (4 ∷ 7 ∷ []) (bget 1 35 small)
bget-Got_example = bget-Got 1 35 small (4 ∷ 7 ∷ []) small-IsFree small-Ring (omega arith)

brelse-Dropped_example : Dropped 7 small (4 ∷ []) []
brelse-Dropped_example =
    brelse-Dropped 7 small (4 ∷ []) [] small-IsFree small-Ring (omega arith) (omega arith)

-- The array of buffers at start-up.
abbrev zeroed : Bcache
zeroed = record {
  cpu = record { id = 0; noff = 0; intena = false; intr = true };
  lock = unlocked;
  valid = λ b. false;
  dev = λ b. 0;
  blockno = λ b. 0;
  refcnt = λ b. 0;
  prev = λ b. 0;
  next = λ b. 0;
}

-- The cache after the first block is asked for, which the first buffer of the array then holds.
abbrev one_block : Bcache
one_block =
    let s = binit zeroed in
    record s {
      lock = unlocked;
      cpu = after s.cpu;
      dev = update s.dev 0 1;
      blockno = update s.blockno 0 5;
      valid = update s.valid 0 false;
      refcnt = update s.refcnt 0 1;
    }

first_get : bget 1 5 (binit zeroed) ≡ ok (0, one_block)
unfolding bget binit acquire release push_off pop_off holding
first_get = refl

binit-Reach-Cache_example : Cache one_block (count_up nbuf 0 [])
binit-Reach-Cache_example =
    binit-Reach-Cache zeroed refl (λ a. refl) (next_step (gets 1 5 0 first_get) here)
