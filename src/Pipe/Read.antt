-- ===== src/Pipe/Read.antt =====
-- `piperead` of kernel/pipe.c: what one run of it takes out of the pipe, and why it stops.
use os_project_cs.Prelude.{
  ℕ, zero, suc, ◌+◌, ◌%◌, ◌≡◌, ◌≢◌, ◌⊎◌, inl, inr, Bool, true, false, ◌&&◌, List, [], ◌∷◌, ◌++◌,
  length, get_or, ◌==◌, arith, refl, ◌∙◌, ap, Bool-cases, if◌then◌else◌,
}
use os_project_cs.Outcome.{ok}
use os_project_cs.Spinlock.Section.{
  IsFree, acquire_free, release_held, after, unlocked, after-IsFree,
}
use os_project_cs.Spinlock.{Cpu}
use os_project_cs.Pipe.{
  Chan, Pipe, pipesize, advance, ReadEnd, delivered, interrupted, waiting, read_rounds, piperead,
}
use os_project_cs.Pipe.Ring.{Inv, advance-Inv, Inv-unlocked, is_empty_lem}

-- The copying loop from byte `i` for `k` bytes took `taken` off a pipe that held `q`, and copied out
-- all of them, or all but the last, which could not be stored.
pub record Copied (copyout : ℕ → Bool) (k i : ℕ) (s : Pipe) (q taken : List ℕ) (count : ℕ)
    (s' : Pipe) : Type 0 where
  pub rest : List ℕ
  pub order : q ≡ taken ++ rest
  pub inv : Inv s' rest
  pub counts :
      ((count ≡ i + length taken) × ((length taken ≡ k) ⊎ (rest ≡ [])))
      ⊎ ((count + 1 ≡ i + length taken) × (copyout count ≡ false))
  pub woken : s'.woken ≡ s.woken
  pub ends : (s'.readopen ≡ s.readopen) × (s'.writeopen ≡ s.writeopen)

one_more :
    (copyout : ℕ → Bool) (k i n count : ℕ) (rest : List ℕ)
    → ((count ≡ i + 1 + n) × ((n ≡ k) ⊎ (rest ≡ [])))
      ⊎ ((count + 1 ≡ i + 1 + n) × (copyout count ≡ false))
    → ((count ≡ i + suc n) × ((suc n ≡ suc k) ⊎ (rest ≡ [])))
      ⊎ ((count + 1 ≡ i + suc n) × (copyout count ≡ false))
one_more copyout k i n count rest (inl (c, inl full)) = inl (omega arith, inl (ap suc full))
one_more copyout k i n count rest (inl (c, inr empty)) = inl (omega arith, inr empty)
one_more copyout k i n count rest (inr (c, fault)) = inr (omega arith, fault)

read_rounds-Copied :
    (copyout : ℕ → Bool) (k i : ℕ) (s : Pipe) (q : List ℕ)
    → Inv s q
    → let out = read_rounds copyout k i s in Copied copyout k i s q out.0 out.1 out.2
unfolding read_rounds
read_rounds-Copied copyout zero i s q inv = record {
  rest = q;
  order = refl;
  inv = inv;
  counts = inl (omega arith, inl refl);
  woken = refl;
  ends = (refl, refl);
}
read_rounds-Copied copyout (suc k) i s [] inv =
    let e : (s.nread == s.nwrite) ≡ true = is_empty_lem s [] inv in
    rw e (record {
      rest = [];
      order = refl;
      inv = inv;
      counts = inl (omega arith, inr refl);
      woken = refl;
      ends = (refl, refl);
    })
read_rounds-Copied copyout (suc k) i s (x ∷ q) inv =
    let e : (s.nread == s.nwrite) ≡ false = is_empty_lem s (x ∷ q) inv ∙ ground arith in
    let byte : get_or s.bytes (s.nread % pipesize) 0 ≡ x = inv.holds.0 in
    elim (Bool-cases (copyout i)) [
      | inl stored ↦
          let r = read_rounds-Copied copyout k (i + 1) (advance s) q (advance-Inv s x q inv) in
          rw (e, stored)
            (record {
              rest = r.rest;
              order = rw byte (ap (◌∷◌ x) r.order);
              inv = r.inv;
              counts = one_more copyout k i _ _ _ r.counts;
              woken = r.woken;
              ends = r.ends;
            })
      | inr fault ↦
          rw (e, fault)
            (record {
              rest = q;
              order = rw byte;
              inv = advance-Inv s x q inv;
              counts = inr (refl, fault);
              woken = refl;
              ends = (refl, refl);
            })
    ]

-- How one run of `piperead` for `n` bytes ends on a pipe that holds `q`.
abbrev pub Outcomes : (ℕ → Bool) → Bool → ℕ → Pipe → List ℕ → ReadEnd → List ℕ → Pipe → Type 0
Outcomes copyout killed n s q (delivered count) taken s' =
    Copied copyout n 0 (record s { woken = Chan.nwrite_chan ∷ s.woken }) q taken count s'
    × ((q ≢ []) ⊎ (s.writeopen ≡ false))
Outcomes copyout killed n s q interrupted taken s' =
    (q ≡ []) × (s.writeopen ≡ true) × (killed ≡ true) × (taken ≡ []) × Inv s' []
Outcomes copyout killed n s q waiting taken s' =
    (q ≡ []) × (s.writeopen ≡ true) × (killed ≡ false) × (taken ≡ []) × Inv s' []

pub record Received (copyout : ℕ → Bool) (killed : Bool) (n : ℕ) (s : Pipe) (q : List ℕ)
    : Type 0 where
  pub how : ReadEnd
  pub taken : List ℕ
  pub next : Pipe
  pub runs : piperead copyout killed n s ≡ ok (how, taken, next)
  pub outcome : Outcomes copyout killed n s q how taken next

-- The end of a critical section that copied.
settle :
    {copyout : ℕ → Bool} {k i : ℕ} {s : Pipe} {q taken : List ℕ} {count : ℕ} {t : Pipe} (c : Cpu)
    → IsFree c unlocked
    → Copied copyout k i s q taken count t
    → Copied copyout k i
        (record s { woken = Chan.nwrite_chan ∷ s.woken })
        q
        taken
        count
        (record t { cpu = c; lock = unlocked; woken = Chan.nwrite_chan ∷ t.woken })
settle {t} c free r = record {
  rest = r.rest;
  order = r.order;
  inv = Inv-unlocked t r.rest c (Chan.nwrite_chan ∷ t.woken) r.inv free;
  counts = r.counts;
  woken = ap (◌∷◌ Chan.nwrite_chan) r.woken;
  ends = r.ends;
}

-- An empty pipe that can still be written.
idle_outcome :
    (copyout : ℕ → Bool) (killed : Bool) (n : ℕ) (s : Pipe) (q : List ℕ) (t : Pipe)
    → Inv s q
    → Inv t q
    → ((s.nread == s.nwrite) && s.writeopen) ≡ true
    → Outcomes copyout killed n s q (if killed then interrupted else waiting) [] t
idle_outcome copyout true n s [] t inv inv' idle = (refl, ground arith, refl, refl, inv')
idle_outcome copyout false n s [] t inv inv' idle = (refl, ground arith, refl, refl, inv')
idle_outcome copyout killed n s (x ∷ q) t inv inv' idle =
    absurd (ground (arith, is_empty_lem s (x ∷ q) inv))

busy_reason :
    (s : Pipe) (q : List ℕ)
    → Inv s q
    → ((s.nread == s.nwrite) && s.writeopen) ≡ false
    → (q ≢ []) ⊎ (s.writeopen ≡ false)
busy_reason s [] inv busy = inr (ground (arith, is_empty_lem s [] inv))
busy_reason s (x ∷ q) inv busy = inl (λ e. cc)

-- One run of `piperead` for `n` bytes on a pipe that holds the bytes `q`; the lock is free again at the
-- end. If the pipe is empty and can still be written, it returns -1 in a killed process and sleeps in
-- any other, and takes nothing. Otherwise it wakes the writers and returns the number of bytes copied
-- out: it took bytes off the front of `q`, in order, until it had `n` or the pipe was empty, and
-- copied all of them, or it stopped at a byte that could not be stored, which is lost.
pub piperead-Received :
    (copyout : ℕ → Bool) (killed : Bool) (n : ℕ) (s : Pipe) (q : List ℕ)
    → Inv s q
    → Received copyout killed n s q
unfolding piperead
piperead-Received copyout killed n s q inv =
    elim (Bool-cases ((s.nread == s.nwrite) && s.writeopen)) [
      | inl idle ↦ record {
        how = if killed then interrupted else waiting;
        taken = [];
        next = record s { cpu = after s.cpu; lock = unlocked };
        runs = rw (
          acquire_free s.cpu s.lock inv.free.unlocked,
          release_held s.cpu inv.free.settled,
          idle,
        );
        outcome =
            idle_outcome copyout killed n s q _ inv
              (Inv-unlocked s q (after s.cpu) s.woken inv (after-IsFree s.cpu inv.free.settled))
              idle;
      }
      | inr busy ↦
          let out = read_rounds copyout n 0 s in
          let r = read_rounds-Copied copyout n 0 s q inv in
          record {
            how = delivered out.1;
            taken = out.0;
            next = record (out.2) {
              cpu = after s.cpu;
              lock = unlocked;
              woken = Chan.nwrite_chan ∷ out.2.woken;
            };
            runs = rw (
              acquire_free s.cpu s.lock inv.free.unlocked,
              release_held s.cpu inv.free.settled,
              busy,
            );
            outcome = (
              settle (after s.cpu) (after-IsFree s.cpu inv.free.settled) r,
              busy_reason s q inv busy,
            );
          }
    ]
