-- ===== src/Log/Running.antt =====
-- Operations on the log of kernel/log.c that run together, and what holds between their calls.
use os_project_cs.Prelude.{
  ℕ, zero, suc, ◌+◌, ◌*◌, ◌≤◌, ◌<◌, ◌≡◌, refl, Bool, true, false, List, [], ◌∷◌, arith, none, some,
  get_elem?, set, length, if◌then◌else◌,
}
use os_project_cs.Outcome.{Outcome, ok, ◌>>=◌}
use os_project_cs.Spinlock.Section.{IsFree}
use os_project_cs.Log.{
  Log, Admission, admitted, asleep, max_op_blocks, log_size, begin_op, end_begin, commit,
  end_commit, log_write,
}

-- `start` calls `begin_op`; `write j b` has the operation at place `j` call `log_write` on block
-- `b`; `finish j` has it call `end_op`. If that call is to commit, `write_out` and `reopen` are the rest
-- of it: its call of `commit`, and its second critical section. The log is not locked in between.
pub data Event : Type 0 where
  start : Event
  write : ℕ → ℕ → Event
  finish : ℕ → Event
  write_out reopen : Event

-- How far the call of `end_op` that commits has come.
pub data Committer : Type 0 where
  nobody to_commit committed : Committer

abbrev pub is_under_way : Committer → Bool
is_under_way nobody = false
is_under_way to_commit = true
is_under_way committed = true

-- For each running operation, how many calls of `log_write` it may still make.
pub record Running : Type 0 where
  pub log : Log
  pub quotas : List ℕ
  pub committer : Committer

abbrev pub remove : ℕ → List ℕ → List ℕ
remove i [] = []
remove zero (q ∷ qs) = qs
remove (suc i) (q ∷ qs) = q ∷ remove i qs

abbrev pub sum : List ℕ → ℕ
sum [] = 0
sum (q ∷ qs) = q + sum qs

abbrev pub reserve : Admission → List ℕ → List ℕ
reserve admitted qs = max_op_blocks ∷ qs
reserve asleep qs = qs

-- An operation that has used up its calls makes no more.
unfoldable pub happen : Event → Running → Outcome Running
happen start r = do (a, l) ← begin_op r.log; ok (record r { log = l; quotas = reserve a r.quotas })
happen (write j b) r = elim (get_elem? r.quotas j) [
  | none ↦ ok r
  | some zero ↦ ok r
  | some (suc q) ↦ do l ← log_write b r.log; ok (record r { log = l; quotas = set r.quotas j q })
]
happen (finish j) r = elim (get_elem? r.quotas j) [
  | none ↦ ok r
  | some q ↦ do
    (do_commit, l) ← end_begin r.log
    ok (record {
      log = l;
      quotas = remove j r.quotas;
      committer = if do_commit then to_commit else r.committer;
    })
]
happen write_out r = elim r.committer [
  | nobody ↦ ok r
  | to_commit ↦ ok (record r { log = commit r.log; committer = committed })
  | committed ↦ ok r
]
happen reopen r = elim r.committer [
  | nobody ↦ ok r
  | to_commit ↦ ok r
  | committed ↦ do l ← end_commit r.log; ok (record r { log = l; committer = nobody })
]

unfoldable pub happen_all : List Event → Running → Outcome Running
unfolding happen
happen_all [] r = ok r
happen_all (e ∷ es) r = do r' ← happen e r; happen_all es r'

abbrev pub AtMost : ℕ → List ℕ → Type 0
AtMost m [] = Unit
AtMost m (q ∷ qs) = (q ≤ m) × AtMost m qs

-- What `begin_op` has promised can be kept.
pub record IsWithin (r : Running) : Type 0 where
  pub free : IsFree r.log.cpu r.log.lock
  pub told : r.log.committing ≡ is_under_way r.committer
  pub alone : is_under_way r.committer ≡ true → r.quotas ≡ []
  pub counted : r.log.outstanding ≡ length r.quotas
  pub bounded : AtMost max_op_blocks r.quotas
  pub reserved : r.log.lh.n + sum r.quotas ≤ log_size
  pub large : log_size < r.log.size

pub sum-AtMost : (m : ℕ) (qs : List ℕ) → AtMost m qs → sum qs ≤ length qs * m
sum-AtMost m [] h = omega arith
sum-AtMost m (q ∷ qs) h = omega (arith, sum-AtMost m qs h.1, h.0)

-- An operation at a place of the list.
pub record At (j q : ℕ) (qs : List ℕ) : Type 0 where
  pub sum_left : sum (remove j qs) + q ≡ sum qs
  pub fewer : suc (length (remove j qs)) ≡ length qs
  pub bounded : AtMost max_op_blocks (remove j qs)
  pub small : q ≤ max_op_blocks
  pub sum_set : (x : ℕ) → sum (set qs j x) + q ≡ sum qs + x
  pub length_set : (x : ℕ) → length (set qs j x) ≡ length qs
  pub bounded_set : (x : ℕ) → x ≤ max_op_blocks → AtMost max_op_blocks (set qs j x)

pub get-At : (j q : ℕ) (qs : List ℕ) → AtMost max_op_blocks qs → get_elem? qs j ≡ some q → At j q qs
get-At j q [] a h = absurd (cc)
get-At zero q (p ∷ qs) a h =
    let e : p ≡ q = cc in
    rw (← e) (record {
      sum_left = omega arith;
      fewer = refl;
      bounded = a.1;
      small = a.0;
      sum_set = λ x. omega arith;
      length_set = λ x. refl;
      bounded_set = λ x l. (l, a.1);
    })
get-At (suc j) q (p ∷ qs) a h =
    let r = get-At j q qs a.1 h in
    record {
      sum_left = omega (arith, r.sum_left);
      fewer = omega (arith, r.fewer);
      bounded = (a.0, r.bounded);
      small = r.small;
      sum_set = λ x. omega (arith, r.sum_set x);
      length_set = λ x. omega (arith, r.length_set x);
      bounded_set = λ x l. (a.0, r.bounded_set x l);
    }

abbrev pub Keeps : Outcome Running → Type 0
Keeps o = (r : Running) × (o ≡ ok r) × IsWithin r
