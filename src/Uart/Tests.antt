-- ===== src/Uart/Tests.antt =====
-- A run of kernel/uart.c on an empty buffer.
use os_project_cs.Prelude.{refl, false, [], ◌∷◌, arith}
use mathlib.Core.Option.{none-ne-some}
use os_project_cs.Spinlock.Section.{IsFree, unlocked}
use os_project_cs.Uart.{Uart}
use os_project_cs.Uart.Queue.{Queued, putc, interrupt, Ran, run_events-Ran}

abbrev idle : Uart
idle = record {
  cpu = record { id = 0; noff = 0; intena = false; intr = false };
  lock = unlocked;
  panicked = false;
  buf = λ i. 0;
  w = 18446744073709551615;
  r = 18446744073709551615;
  sent = [];
  woken = 0;
}

idle-IsFree : IsFree idle.cpu idle.lock
idle-IsFree = record { settled = refl; unlocked = refl; unowned = refl }

idle-Queued : Queued idle []
idle-Queued = record {
  small = omega arith;
  bounded = omega arith;
  written = refl;
  holds = λ j x at. absurd (none-ne-some _ at);
  works = refl;
}

run_events-Ran_example : Ran (putc 0 104 ∷ putc 0 105 ∷ interrupt 1 ∷ []) idle []
run_events-Ran_example =
    run_events-Ran (putc 0 104 ∷ putc 0 105 ∷ interrupt 1 ∷ []) idle [] idle-IsFree idle-Queued
