-- ===== src/Pipe/Tests.antt =====
-- Runs of kernel/pipe.c at concrete states.
use os_project_cs.Prelude.{
  ℕ, ◌-◌, ◌^◌, refl, true, false, Option, none, List, [], ◌∷◌, arith, replicate, set, get_elem?,
}
use os_project_cs.Pipe.{Pipe, pipesize}
use os_project_cs.Pipe.Ring.{Inv}
use os_project_cs.Pipe.Fifo.{Call, Ran, run-Ran}

-- Two bytes, with the write counter just wrapped.
abbrev wrapped : Pipe
wrapped = record {
  cpu = record { id = 0; noff = 0; intena = false; intr = true };
  lock = record { locked = false; cpu = none };
  bytes = set (set (replicate pipesize 0) 511 65) 0 66;
  nread = 2 ^ 32 - 1;
  nwrite = 1;
  readopen = true;
  writeopen = true;
  woken = [];
}

wrapped-Inv : Inv wrapped (65 ∷ 66 ∷ [])
wrapped-Inv = record {
  free = record { settled = refl; unlocked = refl; unowned = refl };
  array = refl;
  small = omega arith;
  bounded = omega arith;
  written = refl;
  holds = (refl, (refl, tt));
}

abbrev word : ℕ → Option ℕ
word = get_elem? (70 ∷ 71 ∷ 72 ∷ [])

abbrev calls : List Call
calls =
    Call.read (λ i. true) false 1
    ∷ Call.write word (λ i. false) 3 0
    ∷ Call.read (λ i. true) false 9
    ∷ []

run-Ran_example : Ran calls wrapped (65 ∷ 66 ∷ [])
run-Ran_example = run-Ran calls wrapped (65 ∷ 66 ∷ []) wrapped-Inv
