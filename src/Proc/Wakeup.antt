-- ===== src/Proc/Wakeup.antt =====
-- `wakeup` of kernel/proc.c: who is made runnable.
use os_project_cs.Prelude.{
  ◌∙◌, ℕ, suc, ◌+◌, ◌≡◌, refl, Bool, true, false, not, ◌&&◌, List, [], ◌∷◌, Option, inl, inr, arith,
  if◌then◌else◌, Bool-cases, length, sym, ap,
}
use os_project_cs.Outcome.{ok}
use os_project_cs.Spinlock.{Cpu, is_cpu}
use os_project_cs.Spinlock.Nesting.{IsSettled}
use os_project_cs.Spinlock.Section.{unlocked, after}
use os_project_cs.Proc.{
  Proc, Kernel, Chan, runnable, is_sleeping, same_chan, woken, wakeup_slot, wakeup_rounds, wakeup,
}
use os_project_cs.Proc.Quiet.{
  AllFree, Back, Back-same, Back-after, after-after, myproc_lem, locked_change_lem,
}

-- The process sleeps on the channel.
abbrev pub waits_on : Chan → Proc → Bool
waits_on ch p = is_sleeping p.state && same_chan p.chan ch

-- What each slot holds after the call, from slot `i` on.
abbrev pub Each : Chan → Option ℕ → ℕ → List Proc → List Proc → Type 0
Each ch current i [] [] = Unit
Each ch current i [] (q ∷ qs) = ⊥
Each ch current i (p ∷ ps) [] = ⊥
Each ch current i (p ∷ ps) (q ∷ qs) =
    (q ≡ (if not (is_cpu current i) && waits_on ch p then record p { state = runnable } else p))
    × Each ch current (i + 1) ps qs

record Rounds (ch : Chan) (current : Option ℕ) (c : Cpu) (i : ℕ) (ps : List Proc) : Type 0 where
  last : Cpu
  procs : List Proc
  runs : wakeup_rounds ch current c i ps ≡ ok (last, procs)
  back : Back c last
  each : Each ch current i ps procs
  free : AllFree procs
  exact : after c ≡ c → last ≡ c

slot_lem :
    (ch : Chan) (me : Bool) (c : Cpu) (p : Proc)
    → IsSettled c
    → p.lock ≡ unlocked
    → wakeup_slot ch me (after c) p
      ≡ ok (after c, if not me && waits_on ch p then record p { state = runnable } else p)
unfolding wakeup_slot woken
slot_lem ch true c p h e = refl
slot_lem ch false c p h e =
    let kept : record p { lock = unlocked } ≡ p = ap (λ l. record p { lock = l }) (sym e) in
    elim (Bool-cases (waits_on ch p)) [
      | inl w ↦ rw (locked_change_lem (woken ch) (after c) p h e, w, after-after c, ← e) refl
      | inr w ↦ rw (locked_change_lem (woken ch) (after c) p h e, w, after-after c, kept) refl
    ]

rounds :
    (ch : Chan) (current : Option ℕ) (c : Cpu) (i : ℕ) (ps : List Proc)
    → IsSettled c
    → AllFree ps
    → Rounds ch current c i ps
unfolding wakeup_rounds
rounds ch current c i [] h f = record {
  last = c;
  procs = [];
  runs = refl;
  back = Back-same c h;
  each = tt;
  free = tt;
  exact = λ e. refl;
}
rounds ch current c i (p ∷ ps) h (e, f) =
    let q : Proc =
      if not (is_cpu current i) && waits_on ch p then record p { state = runnable } else p in
    let rest = rounds ch current (after c) (i + 1) ps h f in
    record {
      last = rest.last;
      procs = q ∷ rest.procs;
      runs = rw (myproc_lem c h, slot_lem ch (is_cpu current i) c p h e, rest.runs);
      back = Back-after rest.back;
      each = (refl, rest.each);
      free = (ground (arith, e), rest.free);
      exact = λ x. rest.exact (after-after c) ∙ x;
    }

Each-length :
    (ch : Chan) (current : Option ℕ) (i : ℕ) (ps qs : List Proc)
    → Each ch current i ps qs
    → length qs ≡ length ps
Each-length ch current i [] [] h = refl
Each-length ch current i [] (q ∷ qs) h = elim h [ ]
Each-length ch current i (p ∷ ps) [] h = elim h [ ]
Each-length ch current i (p ∷ ps) (q ∷ qs) h = ap suc (Each-length ch current (i + 1) ps qs h.1)

-- What a slot holds after a `wakeup`.
pub record Woke (ch : Chan) (s : Kernel) : Type 0 where
  pub last : Cpu
  pub procs : List Proc
  pub runs : wakeup ch s ≡ ok (record s { cpu = last; procs = procs })
  pub back : Back s.cpu last
  pub free : AllFree procs
  pub same_slots : length procs ≡ length s.procs
  pub each : Each ch s.current 0 s.procs procs
  pub exact : after s.cpu ≡ s.cpu → last ≡ s.cpu

-- With the lock of every slot free, `wakeup` returns, gives every lock back and makes exactly the processes that
-- sleep on the channel runnable, the one that runs on this hart excepted: all other slots, and all
-- other fields of those, are as before.
pub wakeup-Woke : (ch : Chan) (s : Kernel) → IsSettled s.cpu → AllFree s.procs → Woke ch s
unfolding wakeup
wakeup-Woke ch s settled free =
    let r = rounds ch s.current s.cpu 0 s.procs settled free in
    record {
      last = r.last;
      procs = r.procs;
      runs = rw r.runs;
      back = r.back;
      free = r.free;
      same_slots = Each-length ch s.current 0 s.procs r.procs r.each;
      each = r.each;
      exact = r.exact;
    }
