-- ===== src/Outcome.antt =====
-- What a kernel function does besides returning: `panic` of kernel/printf.c, which stops the
-- machine, and a wait that this hart alone cannot end.

-- The call of `panic` that was made.
pub data Message : Type 0 where
  acquire release pop_off_interruptible pop_off kfree : Message
  initlog log_committing too_big_a_transaction log_write_outside_of_trans init_exiting : Message
  sched_p_lock sched_locks sched_running sched_interruptible no_buffers filedup fileclose brelse
        freeing_free_block :
      Message
  ilock ilock_no_type iunlock iget_no_inodes bmap_out_of_range : Message
  dirlookup_not_dir dirlookup_read dirlink_read : Message

pub data Outcome {ℓ} (A : Type ℓ) : Type ℓ where
  ok : A → Outcome A
  panic : Message → Outcome A
  blocked : Outcome A

infixl 5 ◌>>=◌
abbrev pub ◌>>=◌ {ℓ κ} : {A : Type ℓ} {B : Type κ} → Outcome A → (A → Outcome B) → Outcome B
ok a >>= f = f a
panic m >>= f = panic m
blocked >>= f = blocked
