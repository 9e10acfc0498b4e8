-- ===== src/Log/Space.antt =====
-- The space that `begin_op` of kernel/log.c reserves, for operations that run together.
use os_project_cs.Prelude.{
  ℕ, zero, suc, ◌+◌, ◌*◌, ◌≡◌, inl, inr, refl, Bool, true, false, List, [], ◌∷◌, arith, ◌∙◌, none,
  some, get_elem?, set, length, Option, Bool-cases, ltb-false_le, ltb, ap, sym, ℕ_discrete,
}
use mathlib.Core.Option.{none-ne-some}
use os_project_cs.Outcome.{ok}
use os_project_cs.Spinlock.Section.{acquire_free, release_held, after, unlocked, after-IsFree}
use os_project_cs.Log.{Log, max_op_blocks, log_size, begin_op, commit}
use os_project_cs.Log.Calls.{
  log_write-Wrote, commit-Emptied, reopened, end_commit-reopened, closing, left_open,
  end_begin_last, end_begin_others,
}
use os_project_cs.Log.Running.{
  Event, Committer, is_under_way, Running, remove, happen, happen_all, IsWithin, sum-AtMost, At,
  get-At, Keeps, nobody, to_commit, committed, start, write, finish, write_out, reopen,
}

-- The test of `begin_op`.
abbrev full : Log → Bool
full l = ltb log_size (l.lh.n + (l.outstanding + 1) * max_op_blocks)

start_asleep :
    (b : Bool) (r : Running)
    → IsWithin r
    → r.log.committing ≡ b
    → let l = record (r.log) { cpu = after r.log.cpu; lock = unlocked; committing = b } in
      Keeps (ok (record r { log = l }))
start_asleep b r w same = (
  record r { log = record (r.log) { cpu = after r.log.cpu; lock = unlocked; committing = b } },
  refl,
  record {
    free = after-IsFree r.log.cpu w.free.settled;
    told = sym same ∙ w.told;
    alone = w.alone;
    counted = w.counted;
    bounded = w.bounded;
    reserved = w.reserved;
    large = w.large;
  },
)

start_admitted :
    (r : Running)
    → IsWithin r
    → is_under_way r.committer ≡ false
    → full r.log ≡ false
    → Keeps (
        ok (record r {
          log = record (r.log) {
            cpu = after r.log.cpu;
            lock = unlocked;
            outstanding = r.log.outstanding + 1;
            committing = false;
          };
          quotas = max_op_blocks ∷ r.quotas;
        }))
start_admitted r w none_ends room = (
  record r {
    log = record (r.log) {
      cpu = after r.log.cpu;
      lock = unlocked;
      outstanding = r.log.outstanding + 1;
      committing = false;
    };
    quotas = max_op_blocks ∷ r.quotas;
  },
  refl,
  record {
    free = after-IsFree r.log.cpu w.free.settled;
    told = sym none_ends;
    alone = λ t. absurd (cc);
    counted = omega (arith, w.counted);
    bounded = (omega arith, w.bounded);
    reserved = omega (
      arith,
      ltb-false_le log_size (r.log.lh.n + (r.log.outstanding + 1) * max_op_blocks) room,
      sum-AtMost max_op_blocks r.quotas w.bounded,
      w.counted,
    );
    large = w.large;
  },
)

start-Keeps : (r : Running) → IsWithin r → Keeps (happen start r)
unfolding happen begin_op
start-Keeps r w =
    let l = r.log in
    let f = w.free in
    elim (Bool-cases (is_under_way r.committer)) [
      | inl busy ↦
          rw (acquire_free l.cpu l.lock f.unlocked, release_held l.cpu f.settled, w.told ∙ busy)
            (start_asleep true r w (w.told ∙ busy))
      | inr none_ends ↦ elim (Bool-cases (full l)) [
        | inl wait ↦
            rw
              (
                acquire_free l.cpu l.lock f.unlocked,
                release_held l.cpu f.settled,
                w.told ∙ none_ends,
                wait,
              )
              (start_asleep false r w (w.told ∙ none_ends))
        | inr room ↦
            rw
              (
                acquire_free l.cpu l.lock f.unlocked,
                release_held l.cpu f.settled,
                w.told ∙ none_ends,
                room,
              )
              (start_admitted r w none_ends room)
      ]
    ]

write-Keeps : (j b : ℕ) (r : Running) → IsWithin r → Keeps (happen (write j b) r)
unfolding happen
write-Keeps j b r w = go (get_elem? r.quotas j) refl
  where
    go : (o : Option ℕ) → get_elem? r.quotas j ≡ o → Keeps (happen (write j b) r)
    go none e = rw (e, happen) (r, refl, w)
    go (some zero) e = rw (e, happen) (r, refl, w)
    go (some (suc q)) e =
        let a = get-At j (suc q) r.quotas w.bounded e in
        let s = a.sum_set q in
        let k = w.reserved in
        let n = w.counted in
        let g = w.large in
        let z = a.fewer in
        let v = a.small in
        let u =
          log_write-Wrote b r.log w.free (omega arith) (omega (arith, a.sum_left))
            (omega (arith, a.sum_left)) in
        rw (e, happen, u.runs)
          (
            record r { log = u.next; quotas = set r.quotas j q },
            refl,
            record {
              free = u.free;
              told = u.idle ∙ w.told;
              alone = λ t. ap (λ qs. set qs j q) (w.alone t);
              counted = omega (arith, u.outstanding, a.length_set q);
              bounded = a.bounded_set q (omega arith);
              reserved = omega (arith, u.grows);
              large = omega (arith, u.size);
            },
          )

-- The end of an operation with others still running.
finish_others :
    (j q : ℕ) (r : Running)
    → IsWithin r
    → At j q r.quotas
    → is_under_way r.committer ≡ false
    → IsWithin (record r { log = left_open r.log; quotas = remove j r.quotas })
finish_others j q r w a none_ends = record {
  free = after-IsFree r.log.cpu w.free.settled;
  told = sym none_ends;
  alone = λ t. absurd (cc);
  counted = omega (arith, w.counted, a.fewer);
  bounded = a.bounded;
  reserved = omega (arith, w.reserved, a.sum_left);
  large = w.large;
}

-- The end of the last operation.
finish_last :
    (j q : ℕ) (r : Running)
    → IsWithin r
    → At j q r.quotas
    → r.log.outstanding ≡ 1
    → IsWithin (record { log = closing r.log; quotas = remove j r.quotas; committer = to_commit })
finish_last j q r w a last = record {
  free = after-IsFree r.log.cpu w.free.settled;
  told = refl;
  alone = λ t. no_length (remove j r.quotas) (omega (arith, w.counted, a.fewer));
  counted = omega (arith, w.counted, a.fewer);
  bounded = a.bounded;
  reserved = omega (arith, w.reserved, a.sum_left);
  large = w.large;
}
  where
    no_length : (qs : List ℕ) → length qs ≡ 0 → qs ≡ []
    no_length [] e = refl
    no_length (q ∷ qs) e = absurd (omega arith)

finish-Keeps : (j : ℕ) (r : Running) → IsWithin r → Keeps (happen (finish j) r)
unfolding happen
finish-Keeps j r w = go (get_elem? r.quotas j) refl
  where
    -- While a call of `end_op` commits, no operation runs.
    nobody_commits : (q : ℕ) → get_elem? r.quotas j ≡ some q → is_under_way r.committer ≡ false
    nobody_commits q e = elim (Bool-cases (is_under_way r.committer)) [
      | inl busy ↦ absurd (none-ne-some _ (sym (ap (λ qs. get_elem? qs j) (w.alone busy)) ∙ e))
      | inr none_ends ↦ none_ends
    ]

    go : (o : Option ℕ) → get_elem? r.quotas j ≡ o → Keeps (happen (finish j) r)
    go none e = rw (e, happen) (r, refl, w)
    go (some q) e =
        let a = get-At j q r.quotas w.bounded e in
        let none_ends = nobody_commits q e in
        let idle = w.told ∙ none_ends in
        elim (ℕ_discrete r.log.outstanding 1) [
          | yes last ↦
              rw (e, happen, end_begin_last r.log w.free idle last)
                (_, refl, finish_last j q r w a last)
          | no more ↦
              rw (e, happen, end_begin_others r.log w.free idle more)
                (_, refl, finish_others j q r w a none_ends)
        ]

write_out-Keeps : (r : Running) → IsWithin r → Keeps (happen write_out r)
unfolding happen
write_out-Keeps r w = go r.committer refl
  where
    go : (p : Committer) → r.committer ≡ p → Keeps (happen write_out r)
    go nobody e = rw (e, happen) (r, refl, w)
    go committed e = rw (e, happen) (r, refl, w)
    go to_commit e =
        let c = commit-Emptied r.log in
        let started = ap is_under_way e in
        rw (e, happen)
          (
            record r { log = commit r.log; committer = committed },
            refl,
            record {
              free = rw (c.cpu, c.lock) w.free;
              told = c.committing ∙ w.told ∙ started;
              alone = λ t. w.alone started;
              counted = c.outstanding ∙ w.counted;
              bounded = w.bounded;
              reserved = omega (arith, c.none_left, w.reserved);
              large = omega (arith, c.size, w.large);
            },
          )

reopen-Keeps : (r : Running) → IsWithin r → Keeps (happen reopen r)
unfolding happen
reopen-Keeps r w = go r.committer refl
  where
    go : (p : Committer) → r.committer ≡ p → Keeps (happen reopen r)
    go nobody e = rw (e, happen) (r, refl, w)
    go to_commit e = rw (e, happen) (r, refl, w)
    go committed e =
        rw (e, happen, end_commit-reopened r.log w.free)
          (
            record r { log = reopened r.log; committer = nobody },
            refl,
            record {
              free = after-IsFree r.log.cpu w.free.settled;
              told = refl;
              alone = λ t. absurd (cc);
              counted = w.counted;
              bounded = w.bounded;
              reserved = w.reserved;
              large = w.large;
            },
          )

happen-Keeps : (e : Event) (r : Running) → IsWithin r → Keeps (happen e r)
happen-Keeps start r w = start-Keeps r w
happen-Keeps (write j b) r w = write-Keeps j b r w
happen-Keeps (finish j) r w = finish-Keeps j r w
happen-Keeps write_out r w = write_out-Keeps r w
happen-Keeps reopen r w = reopen-Keeps r w

-- On a log of more than 30 blocks, let operations begin, write blocks and end in any order, each
-- with at most 10 calls of `log_write`, also while the last call of `end_op` commits, which holds no
-- lock. Then no call panics or waits for the lock: `begin_op` lets in no more operations than the space
-- reserved for them allows, and none during a commit; `log_write` always finds room, and `end_op` never
-- finds a commit under way. The lock is free between calls.
pub happen_all-Keeps : (es : List Event) (r : Running) → IsWithin r → Keeps (happen_all es r)
unfolding happen_all
happen_all-Keeps [] r w = (r, refl, w)
happen_all-Keeps (e ∷ es) r w =
    let (r', runs, w') = happen-Keeps e r w in rw runs (happen_all-Keeps es r' w')
