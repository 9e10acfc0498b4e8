-- ===== src/Pipe/Write.antt =====
-- `pipewrite` of kernel/pipe.c: what one run of it writes, and why it stops.
use os_project_cs.Prelude.{
  ℕ, zero, suc, ◌+◌, ◌≤◌, ◌<◌, ◌≡◌, ◌⊎◌, inl, inr, Bool, true, not, ◌||◌, Option, none, some, List,
  [], ◌∷◌, ◌++◌, length, arith, refl, ◌∙◌, ==_iff, Bool-cases, Option-cases, sym,
}
use mathlib.Core.List.{append_assoc, append-nil}
use os_project_cs.Outcome.{ok}
use os_project_cs.Spinlock.Section.{
  IsFree, acquire_free, release_held, after, unlocked, after-IsFree,
}
use os_project_cs.Spinlock.{Cpu}
use os_project_cs.Pipe.{
  Chan, Pipe, pipesize, put, is_full, WriteEnd, wrote, refused, asleep, write_rounds, wake_readers,
  pipewrite,
}
use os_project_cs.Pipe.Ring.{Inv, put-Inv, Inv-unlocked, is_full_lem}

-- `copyin` reads these bytes from place `i` on.
abbrev pub Reads : (ℕ → Option ℕ) → ℕ → List ℕ → Type 0
Reads copyin i [] = Unit
Reads copyin i (x ∷ l) = (copyin i ≡ some x) × Reads copyin (i + 1) l

-- Why a run stops at byte `j`, with `q` in the pipe: all `n` bytes are written or the next cannot be
-- read; the reading end is closed or the process was killed; or the pipe is full.
abbrev pub Stops : (ℕ → Option ℕ) → (ℕ → Bool) → Bool → ℕ → ℕ → List ℕ → WriteEnd → Type 0
Stops copyin killed readopen n j q (wrote i) = (i ≡ j) × ((j ≡ n) ⊎ (copyin j ≡ none))
Stops copyin killed readopen n j q refused = (j < n) × ((not readopen || killed j) ≡ true)
Stops copyin killed readopen n j q (asleep i) = (i ≡ j) × (j < n) × (length q ≡ pipesize)

-- A writer that goes to sleep has woken the readers.
abbrev pub Awake : WriteEnd → List Chan → Type 0
Awake (asleep i) l = (r : List Chan) × (l ≡ Chan.nread_chan ∷ r)
Awake e l = Unit

-- A writer that gives up the lock has woken the readers, but where it failed.
abbrev pub Wakes : WriteEnd → List Chan → Type 0
Wakes refused l = Unit
Wakes e l = (r : List Chan) × (l ≡ Chan.nread_chan ∷ r)

-- A run from byte `i` that ends in `e` and `s'`.
pub record Written (copyin : ℕ → Option ℕ) (killed : ℕ → Bool) (i n : ℕ) (s : Pipe) (q : List ℕ)
    (e : WriteEnd) (s' : Pipe) : Type 0 where
  pub taken : List ℕ
  pub reads : Reads copyin i taken
  pub inv : Inv s' (q ++ taken)
  pub within : i + length taken ≤ n
  pub stops : Stops copyin killed s.readopen n (i + length taken) (q ++ taken) e
  pub awake : Awake e s'.woken
  pub ends : (s'.readopen ≡ s.readopen) × (s'.writeopen ≡ s.writeopen)

-- A run that writes nothing more.
stop_here :
    {copyin : ℕ → Option ℕ} {killed : ℕ → Bool} {i n : ℕ} {s : Pipe} {q : List ℕ} {e : WriteEnd}
    {s' : Pipe}
    → i ≤ n
    → Inv s' q
    → Stops copyin killed s.readopen n i q e
    → Awake e s'.woken
    → (s'.readopen ≡ s.readopen) × (s'.writeopen ≡ s.writeopen)
    → Written copyin killed i n s q e s'
stop_here {copyin} {killed} {i} {n} {s} {q} {e} le inv stops awake ends =
    let z : i + 0 ≡ i = omega arith in
    record {
      taken = [];
      reads = tt;
      inv = rw append-nil inv;
      within = omega arith;
      stops = rw (z, append-nil) stops;
      awake = awake;
      ends = ends;
    }

-- A run that writes one byte first.
put_first :
    {copyin : ℕ → Option ℕ} {killed : ℕ → Bool} {i n : ℕ} {s : Pipe} {q : List ℕ} {e : WriteEnd}
    {s' : Pipe} (ch : ℕ)
    → copyin i ≡ some ch
    → Written copyin killed (i + 1) n (put ch s) (q ++ (ch ∷ [])) e s'
    → Written copyin killed i n s q e s'
unfolding put
put_first {copyin} {killed} {i} {n} {s} {q} {e} ch here w =
    let shift : i + 1 + length w.taken ≡ i + suc (length w.taken) = omega arith in
    record {
      taken = ch ∷ w.taken;
      reads = (here, w.reads);
      inv = rw (append_assoc q (ch ∷ []) w.taken) at (w.inv);
      within = omega (arith, w.within);
      stops = rw (append_assoc q (ch ∷ []) w.taken, shift) at (w.stops);
      awake = w.awake;
      ends = w.ends;
    }

write_rounds-Written :
    (copyin : ℕ → Option ℕ) (killed : ℕ → Bool) (k i n : ℕ) (s : Pipe) (q : List ℕ)
    → i + k ≡ n
    → Inv s q
    → let out = write_rounds copyin killed k i s in Written copyin killed i n s q out.0 out.1
unfolding write_rounds
write_rounds-Written copyin killed zero i n s q e inv =
    stop_here (omega arith) inv (refl, inl (omega arith)) tt (refl, refl)
write_rounds-Written copyin killed (suc k) i n s q e inv =
    let b = inv.bounded in
    elim (Bool-cases (not s.readopen || killed i)) [
      | inl stop ↦ rw stop (stop_here (omega arith) inv (omega arith, stop) tt (refl, refl))
      | inr go ↦ elim (Bool-cases (is_full s)) [
        | inl full ↦
            rw (go, full)
              (stop_here (omega arith)
                (record {
                  free = inv.free;
                  array = inv.array;
                  small = inv.small;
                  bounded = b;
                  written = inv.written;
                  holds = inv.holds;
                })
                (
                  refl,
                  omega arith,
                  (==_iff (length q) pipesize).0 (sym (is_full_lem s q inv) ∙ full),
                )
                (s.woken, refl) (refl, refl))
        | inr room ↦ elim (Option-cases (copyin i)) [
          | inl fault ↦
              rw (go, room, fault, write_rounds)
                (stop_here (omega arith) inv (refl, inr fault) tt (refl, refl))
          | inr (ch, here) ↦
              let less : length q < pipesize = ground (arith, is_full_lem s q inv) in
              rw (go, room, here, write_rounds)
                (put_first ch here (
                  write_rounds-Written copyin killed k (i + 1) n (put ch s) (q ++ (ch ∷ []))
                    (omega arith) (put-Inv ch s q inv less)))
        ]
      ]
    ]

-- The record after the wakeup at the end.
pub record Sent (copyin : ℕ → Option ℕ) (killed : ℕ → Bool) (k i : ℕ) (s : Pipe) (q : List ℕ)
    : Type 0 where
  pub how : WriteEnd
  pub next : Pipe
  pub runs : pipewrite copyin killed k i s ≡ ok (how, next)
  pub written : Written copyin killed i (i + k) s q how next
  pub wakes : Wakes how next.woken

relocked :
    {copyin : ℕ → Option ℕ} {killed : ℕ → Bool} {i n : ℕ} {s : Pipe} {q : List ℕ} {e : WriteEnd}
    {t : Pipe} (c : Cpu) (l : List Chan)
    → IsFree c unlocked
    → Written copyin killed i n s q e t
    → Awake e l
    → Written copyin killed i n s q e (record t { cpu = c; lock = unlocked; woken = l })
relocked {q} {t} c l free w awake = record {
  taken = w.taken;
  reads = w.reads;
  inv = Inv-unlocked t (q ++ w.taken) c l w.inv free;
  within = w.within;
  stops = w.stops;
  awake = awake;
  ends = w.ends;
}

-- The end of the critical section.
settle :
    {copyin : ℕ → Option ℕ} {killed : ℕ → Bool} {i n : ℕ} {s : Pipe} {q : List ℕ} (c : Cpu)
    (out : WriteEnd × Pipe)
    → IsFree c unlocked
    → Written copyin killed i n s q out.0 out.1
    → let last = wake_readers out in
      Written copyin killed i n s q last.0 (record (last.1) { cpu = c; lock = unlocked })
      × Wakes last.0 last.1.woken
settle c (wrote j, t) free w = (relocked c (Chan.nread_chan ∷ t.woken) free w tt, (t.woken, refl))
settle c (refused, t) free w = (relocked c t.woken free w tt, tt)
settle c (asleep j, t) free w = (relocked c t.woken free w w.awake, w.awake)

-- One run of `pipewrite` from byte `i`, with `k` bytes to go, on a pipe that holds the bytes `q`. It
-- returns or sleeps with the lock free, and it has appended to `q`, in order, bytes that `copyin`
-- read from place `i` on. It returns the number of bytes written only when all `k` are written or the
-- next byte cannot be read; it returns -1 only if the reading end is closed or the process was killed;
-- and it sleeps only if the pipe is full.
pub pipewrite-Sent :
    (copyin : ℕ → Option ℕ) (killed : ℕ → Bool) (k i : ℕ) (s : Pipe) (q : List ℕ)
    → Inv s q
    → Sent copyin killed k i s q
unfolding pipewrite
pipewrite-Sent copyin killed k i s q inv =
    let out = write_rounds copyin killed k i s in
    let w = write_rounds-Written copyin killed k i (i + k) s q refl inv in
    let last = wake_readers out in
    record {
      how = last.0;
      next = record (last.1) { cpu = after s.cpu; lock = unlocked };
      runs = rw (acquire_free s.cpu s.lock inv.free.unlocked, release_held s.cpu inv.free.settled);
      written = (settle (after s.cpu) out (after-IsFree s.cpu inv.free.settled) w).0;
      wakes = (settle (after s.cpu) out (after-IsFree s.cpu inv.free.settled) w).1;
    }
