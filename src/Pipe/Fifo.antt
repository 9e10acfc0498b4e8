-- ===== src/Pipe/Fifo.antt =====
-- Any sequence of runs of `pipewrite` and `piperead` of kernel/pipe.c: the pipe is a queue.
use os_project_cs.Prelude.{
  ℕ, ◌≡◌, Bool, Option, List, [], ◌∷◌, ◌++◌, length, arith, refl, ◌∙◌, ap, sym, ◌≤◌,
}
use mathlib.Core.List.{append_assoc, append-nil}
use os_project_cs.Outcome.{Outcome, ok, ◌>>=◌}
use os_project_cs.Pipe.{Pipe, pipewrite, ReadEnd, delivered, interrupted, waiting, piperead}
use os_project_cs.Pipe.Ring.{Inv}
use os_project_cs.Pipe.Write.{Reads, pipewrite-Sent}
use os_project_cs.Pipe.Read.{Outcomes, piperead-Received}

-- A run of a writer from its byte `i` with `k` to go, or of a reader for `n` bytes.
pub data Call : Type 0 where
  write : (ℕ → Option ℕ) → (ℕ → Bool) → ℕ → ℕ → Call
  read : (ℕ → Bool) → Bool → ℕ → Call

-- The bytes that a run of calls took out of the pipe, in order, and the pipe after it.
unfoldable pub run : List Call → Pipe → Outcome (List ℕ × Pipe)
run [] s = ok ([], s)
run (write copyin killed k i ∷ calls) s = do (e, s') ← pipewrite copyin killed k i s; run calls s'
run (read copyout killed n ∷ calls) s = do
  (e, taken, s') ← piperead copyout killed n s
  (more, last) ← run calls s'
  ok (taken ++ more, last)

-- The bytes that the writers of a run put in: for each, some that its `copyin` reads from its place on.
abbrev pub Offered : List Call → List ℕ → Type 0
Offered [] l = l ≡ []
Offered (write copyin killed k i ∷ calls) l =
    (some_bytes : List ℕ) × (more : List ℕ) × (l ≡ some_bytes ++ more)
    × Reads copyin i some_bytes
    × (length some_bytes ≤ k)
    × Offered calls more
Offered (read copyout killed n ∷ calls) l = Offered calls l

pub record Ran (calls : List Call) (s : Pipe) (q : List ℕ) : Type 0 where
  pub out : List ℕ
  pub last : Pipe
  pub runs : run calls s ≡ ok (out, last)
  pub sent : List ℕ
  pub offered : Offered calls sent
  pub left : List ℕ
  pub inv : Inv last left
  pub order : q ++ sent ≡ out ++ left

-- What a run of a reader took, and what it left.
abbrev Took : List ℕ → List ℕ → Pipe → Type 0
Took q l t = (rest : List ℕ) × (q ≡ l ++ rest) × Inv t rest

outcome-Took :
    (copyout : ℕ → Bool) (killed : Bool) (n : ℕ) (s : Pipe) (q : List ℕ) (e : ReadEnd) (l : List ℕ)
    (t : Pipe)
    → Outcomes copyout killed n s q e l t
    → Took q l t
outcome-Took copyout killed n s q (delivered c) l t o = (o.0.rest, o.0.order, o.0.inv)
outcome-Took copyout killed n s q interrupted l t o = ([], o.0 ∙ sym (rw (o.3) refl), o.4)
outcome-Took copyout killed n s q waiting l t o = ([], o.0 ∙ sym (rw (o.3) refl), o.4)

-- A pipe is a queue. Run any writers and readers on a pipe that holds the bytes `q`, each until it
-- returns or sleeps, in any order. Then no call panics or waits for the lock, and the bytes that left
-- the pipe, followed by those still in it, are `q` followed by bytes that the writers offered, in the
-- order of their calls, at most as many of each as it had to write: none is lost, repeated or moved.
pub run-Ran : (calls : List Call) (s : Pipe) (q : List ℕ) → Inv s q → Ran calls s q
unfolding run
run-Ran [] s q inv = record {
  out = [];
  last = s;
  runs = refl;
  sent = [];
  offered = refl;
  left = q;
  inv = inv;
  order = append-nil q;
}
run-Ran (write copyin killed k i ∷ calls) s q inv =
    let w = pipewrite-Sent copyin killed k i s q inv in
    let r = run-Ran calls w.next (q ++ w.written.taken) w.written.inv in
    record {
      out = r.out;
      last = r.last;
      runs = rw (w.runs) (r.runs);
      sent = w.written.taken ++ r.sent;
      offered = (
        w.written.taken,
        r.sent,
        refl,
        w.written.reads,
        omega (arith, w.written.within),
        r.offered,
      );
      left = r.left;
      inv = r.inv;
      order = sym (append_assoc q w.written.taken r.sent) ∙ r.order;
    }
run-Ran (read copyout killed n ∷ calls) s q inv =
    let w = piperead-Received copyout killed n s q inv in
    let (rest, order, inv') = outcome-Took copyout killed n s q w.how w.taken w.next w.outcome in
    let r = run-Ran calls w.next rest inv' in
    record {
      out = w.taken ++ r.out;
      last = r.last;
      runs = rw (w.runs, r.runs);
      sent = r.sent;
      offered = r.offered;
      left = r.left;
      inv = r.inv;
      order =
          ap (λ (l : List ℕ). l ++ r.sent) order
          ∙ append_assoc w.taken rest r.sent
          ∙ ap (◌++◌ w.taken) r.order
          ∙ sym (append_assoc w.taken r.out r.left);
    }
