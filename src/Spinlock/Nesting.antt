-- ===== src/Spinlock/Nesting.antt =====
-- Interrupts under nested `push_off` and `pop_off`, and a critical section as a whole.
use os_project_cs.Prelude.{
  ℕ, zero, suc, ◌≡◌, refl, Bool, true, false, ◌&&◌, ◌||◌, not, List, [], ◌∷◌, Option, none, some,
  arith, ◌∙◌, ◌==◌, if◌then◌else◌,
}
use os_project_cs.Outcome.{Outcome, ok, ◌>>=◌}
use os_project_cs.Spinlock.{Cpu, push_off, pop_off}

-- While a hart is inside a `push_off`, its interrupts are off.
abbrev pub IsSettled : Cpu → Type 0
IsSettled c = (c.noff == 0) || not c.intr ≡ true

-- A sequence of calls: `true` is `push_off`, `false` is `pop_off`.
unfoldable pub run : List Bool → Cpu → Outcome Cpu
run [] c = ok c
run (true ∷ ops) c = run ops (push_off c)
run (false ∷ ops) c = do c' ← pop_off c; run ops c'

-- The depth at the end, if the calls never undo more than they did.
unfoldable pub depth : List Bool → ℕ → Option ℕ
depth [] d = some d
depth (true ∷ ops) d = depth ops (suc d)
depth (false ∷ ops) zero = none
depth (false ∷ ops) (suc d) = depth ops d

-- The interrupt state to go back to.
abbrev pub saved : Cpu → Bool
saved c = if c.noff == 0 then c.intr else c.intena

pub push_off_step : (c : Cpu) → record {
  settled : IsSettled (push_off c);
  deeper : (push_off c).noff ≡ suc c.noff;
  same : saved (push_off c) ≡ saved c;
}
unfolding push_off
push_off_step c = ground arith

pub pop_off_step :
    (c : Cpu) (d : ℕ)
    → IsSettled c
    → c.noff ≡ suc d
    → (c' : Cpu) × (pop_off c ≡ ok c') × (c'.noff ≡ d) × IsSettled c' × (saved c' ≡ saved c)
unfolding pop_off
pop_off_step c d h e = (
  record c { noff = d; intr = (d == 0) && c.intena },
  ground arith,
  refl,
  ground arith,
  ground arith,
)

-- Where a sequence of `push_off` and `pop_off` ends.
pub record Nested (ops : List Bool) (c : Cpu) (d : ℕ) : Type 0 where
  pub last : Cpu
  pub runs : run ops c ≡ ok last
  pub level : last.noff ≡ d
  pub settled : IsSettled last
  pub interrupts : last.intr ≡ (if d == 0 then saved c else false)
  pub keeps : saved last ≡ saved c

-- From a hart whose interrupts are off inside a `push_off`, any sequence of calls that undoes no
-- more than it did runs without a panic, ends at the depth counted, and leaves interrupts off
-- inside and as they were before the outermost `push_off` outside.
pub push_pop-Nested :
    (ops : List Bool) (c : Cpu) (d : ℕ) → IsSettled c → depth ops c.noff ≡ some d → Nested ops c d
unfolding run depth
push_pop-Nested [] c d h e = record {
  last = c;
  runs = refl;
  level = ground arith;
  settled = h;
  interrupts = ground arith;
  keeps = refl;
}
push_pop-Nested (true ∷ ops) c d h e =
    let s = push_off_step c in
    let r = push_pop-Nested ops (push_off c) d s.settled (rw (s.deeper) e) in
    record {
      last = r.last;
      runs = r.runs;
      level = r.level;
      settled = r.settled;
      interrupts = rw (← s.same) (r.interrupts);
      keeps = r.keeps ∙ s.same;
    }
push_pop-Nested (false ∷ ops) c d h e = go c.noff refl (push_pop-Nested ops) e
  where
    go :
        (n : ℕ)
        → c.noff ≡ n
        → ((c' : Cpu) (e' : ℕ) → IsSettled c' → depth ops c'.noff ≡ some e' → Nested ops c' e')
        → depth (false ∷ ops) n ≡ some d
        → Nested (false ∷ ops) c d
    go zero q ih e = absurd (cc)
    go (suc n) q ih e =
        let (c', popped, level, settled, same) = pop_off_step c n h q in
        let r = ih c' d settled (rw level e) in
        record {
          last = r.last;
          runs = rw popped (r.runs);
          level = r.level;
          settled = r.settled;
          interrupts = rw (← same) (r.interrupts);
          keeps = r.keeps ∙ same;
        }
