-- ===== src/Uart/Queue.antt =====
-- The transmit buffer of kernel/uart.c is a queue.
use os_project_cs.Prelude.{
  ℕ, zero, suc, ◌+◌, ◌-◌, ◌%◌, ◌^◌, ◌<◌, ◌≤◌, ◌≡◌, ◌≢◌, refl, ◌∙◌, sym, ap, subst, Bool, true,
  false, List, [], ◌∷◌, ◌++◌, some, ◌==◌, if◌then◌else◌, update, get_elem?, length, arith,
  length-append, ==_ne, ==_refl, ◌⊎◌, inl, inr, Bool-cases, get_elem?-append_cases,
}
use mathlib.Core.List.{append_assoc, append-nil}
use os_project_cs.Outcome.{Outcome, ok, blocked, ◌>>=◌}
use os_project_cs.Spinlock.{Cpu, Spinlock, push_off}
use os_project_cs.Spinlock.Section.{
  IsFree, unlocked, after, after-IsFree, acquire_free, release_held,
}
use os_project_cs.Uart.{
  Uart, tx_buf_size, send, uartstart, enqueue, put_or_sleep, uartputc, send_buffered,
}

-- The buffer holds the characters `q`.
pub record Queued (s : Uart) (q : List ℕ) : Type 0 where
  pub small : s.r < 2 ^ 64
  pub bounded : length q ≤ tx_buf_size
  pub written : s.w ≡ (s.r + length q) % 2 ^ 64
  pub holds : (j x : ℕ) → get_elem? q j ≡ some x → s.buf ((s.r + j) % tx_buf_size) ≡ x
  pub works : s.panicked ≡ false

pub is_empty_lem : (s : Uart) (q : List ℕ) → Queued s q → (s.w == s.r) ≡ (length q == 0)
is_empty_lem s q h = let r = h.small in let w = h.written in let b = h.bounded in ground arith

pub is_full_lem :
    (s : Uart) (q : List ℕ)
    → Queued s q
    → (s.w == (s.r + tx_buf_size) % 2 ^ 64) ≡ (length q == tx_buf_size)
is_full_lem s q h = let r = h.small in let w = h.written in let b = h.bounded in ground arith

send-Queued : (s : Uart) (x : ℕ) (q : List ℕ) → Queued s (x ∷ q) → Queued (send s) q
unfolding send
send-Queued s x q h =
    let r = h.small in
    let w = h.written in
    let b = h.bounded in
    record {
      small = omega arith;
      bounded = omega arith;
      written = omega arith;
      holds = λ j y at.
          let place : ((s.r + 1) % 2 ^ 64 + j) % tx_buf_size ≡ (s.r + suc j) % tx_buf_size =
            omega arith in
          rw place (h.holds (suc j) y at);
      works = h.works;
    }

enqueue-Queued :
    (c : ℕ) (s : Uart) (q : List ℕ)
    → length q < tx_buf_size
    → Queued s q
    → Queued (enqueue c s) (q ++ (c ∷ []))
unfolding enqueue
enqueue-Queued c s q room h =
    let r = h.small in
    let w = h.written in
    let n = length-append q (c ∷ []) in
    record {
      small = h.small;
      bounded = omega arith;
      written = omega arith;
      holds = holds;
      works = h.works;
    }
  where
    holds :
        (j x : ℕ)
        → get_elem? (q ++ (c ∷ [])) j ≡ some x
        → update s.buf (s.w % tx_buf_size) c ((s.r + j) % tx_buf_size) ≡ x
    holds j x at =
        let w = h.written in
        elim (get_elem?-append_cases q c j x at) [
          | inl (below, old) ↦
              let ne : s.w % tx_buf_size ≢ (s.r + j) % tx_buf_size = λ f. omega arith in
              rw (==_ne (s.w % tx_buf_size) ((s.r + j) % tx_buf_size) ne) (h.holds j x old)
          | inr (here, new) ↦
              let eq : s.w % tx_buf_size ≡ (s.r + j) % tx_buf_size = omega arith in
              rw (eq, ==_refl ((s.r + j) % tx_buf_size), new) refl
        ]

-- What `uartstart` does: it moves characters from the queue to the port, until the port is busy or
-- the queue empty.
pub record Sent (k : ℕ) (s : Uart) (q : List ℕ) (t : Uart) : Type 0 where
  pub left : List ℕ
  pub order : t.sent ++ left ≡ s.sent ++ q
  pub queued : Queued t left
  pub stops : length left ≡ length q - k

uartstart-Sent : (k : ℕ) (s : Uart) (q : List ℕ) → Queued s q → Sent k s q (uartstart k s)
unfolding uartstart send
uartstart-Sent zero s q h = record { left = q; order = refl; queued = h; stops = omega arith }
uartstart-Sent (suc k) s [] h =
    rw (is_empty_lem s [] h) (record { left = []; order = refl; queued = h; stops = omega arith })
uartstart-Sent (suc k) s (x ∷ q) h =
    let t : (s.w == s.r) ≡ false = is_empty_lem s (x ∷ q) h ∙ ground arith in
    let r = uartstart-Sent k (send s) q (send-Queued s x q h) in
    let z : s.r + 0 ≡ s.r = omega arith in
    let first : s.buf (s.r % tx_buf_size) ≡ x =
      subst (λ p. s.buf (p % tx_buf_size) ≡ x) z (h.holds 0 x refl) in
    rw t (record {
      left = r.left;
      order = r.order ∙ moved first;
      queued = r.queued;
      stops = omega (arith, r.stops);
    })
  where
    moved : s.buf (s.r % tx_buf_size) ≡ x → (send s).sent ++ q ≡ s.sent ++ (x ∷ q)
    moved e = rw e (append_assoc s.sent (x ∷ []) q)

Queued-unlocked :
    (s : Uart) (q : List ℕ) (c : Cpu) (lk : Spinlock)
    → Queued s q
    → Queued (record s { cpu = c; lock = lk }) q
Queued-unlocked s q c lk h = record {
  small = h.small;
  bounded = h.bounded;
  written = h.written;
  holds = h.holds;
  works = h.works;
}

-- How `uartputc` ends.
uartputc_lem :
    (k c : ℕ) (s : Uart) (full : Bool)
    → IsFree s.cpu s.lock
    → s.panicked ≡ false
    → (s.w == (s.r + tx_buf_size) % 2 ^ 64) ≡ full
    → uartputc k c s ≡ (
        if full
        then ok (false, record s { cpu = after s.cpu; lock = unlocked })
        else ok (true, record (uartstart k (enqueue c s)) { cpu = after s.cpu; lock = unlocked }))
unfolding uartputc put_or_sleep
uartputc_lem k c s full free works e =
    let cpu = push_off s.cpu in
    let held : Spinlock = record { locked = true; cpu = some s.cpu.id } in
    rw (acquire_free s.cpu s.lock free.unlocked)
      (ap (λ b. if b then blocked else put_or_sleep k c cpu held s) works ∙ unlocked_lem full e)
  where
    unlocked_lem :
        (full : Bool)
        → (s.w == (s.r + tx_buf_size) % 2 ^ 64) ≡ full
        → put_or_sleep k c (push_off s.cpu) (record { locked = true; cpu = some s.cpu.id }) s ≡ (
            if full
            then ok (false, record s { cpu = after s.cpu; lock = unlocked })
            else ok
                (true, record (uartstart k (enqueue c s)) { cpu = after s.cpu; lock = unlocked }))
    unlocked_lem true e = rw (e, release_held s.cpu free.settled) refl
    unlocked_lem false e = rw (e, release_held s.cpu free.settled) refl

-- A call of `uartputc` with a character, or an interrupt that sends, each with how many characters the
-- port then takes.
pub data Event : Type 0 where
  putc : ℕ → ℕ → Event
  interrupt : ℕ → Event

-- A run of such calls: the characters that entered the buffer.
unfoldable pub run_events : List Event → Uart → Outcome (List ℕ × Uart)
unfolding uartputc send_buffered
run_events [] s = ok ([], s)
run_events (putc k c ∷ events) s = do
  (entered, s') ← uartputc k c s
  (more, t) ← run_events events s'
  ok (if entered then c ∷ more else more, t)
run_events (interrupt k ∷ events) s = do s' ← send_buffered k s; run_events events s'

-- The same run on a queue of which only the length `n` is known: the characters that enter, and how many
-- are left.
abbrev pub queue_run : List Event → ℕ → List ℕ × ℕ
queue_run [] n = ([], n)
queue_run (putc k c ∷ events) n =
    let rest = queue_run events (n + 1 - k) in
    if n == tx_buf_size then queue_run events n else (c ∷ rest.0, rest.1)
queue_run (interrupt k ∷ events) n = queue_run events (n - k)

pub record Ran (events : List Event) (s : Uart) (q : List ℕ) : Type 0 where
  pub entered : List ℕ
  pub last : Uart
  pub runs : run_events events s ≡ ok (entered, last)
  pub left : List ℕ
  pub order : last.sent ++ left ≡ s.sent ++ (q ++ entered)
  pub exact : (entered, length left) ≡ queue_run events (length q)
  pub queued : Queued last left
  pub free : IsFree last.cpu last.lock

-- Any run of `uartputc` and of the end of `uartintr`, which sends buffered characters, neither panics
-- nor waits for the lock, and the characters that went from the buffer to the port, followed by those
-- still in it, are those sent and buffered before, followed by the characters that entered: none is
-- lost, repeated or moved. A character enters exactly if the buffer is not full; with a full buffer its
-- call sleeps and sends nothing, and any other call sends as many characters as the port takes, or all
-- that are buffered.
pub run_events-Ran :
    (events : List Event) (s : Uart) (q : List ℕ)
    → IsFree s.cpu s.lock
    → Queued s q
    → Ran events s q
unfolding run_events uartputc send_buffered
run_events-Ran [] s q free h = record {
  entered = [];
  last = s;
  runs = refl;
  left = q;
  order = ap (λ l. s.sent ++ l) (sym (append-nil q));
  exact = refl;
  queued = h;
  free = free;
}
run_events-Ran (interrupt k ∷ events) s q free h =
    let t = uartstart-Sent k s q h in
    let s' = record (uartstart k s) { cpu = after s.cpu; lock = unlocked } in
    let r =
      run_events-Ran events s' t.left (after-IsFree s.cpu free.settled)
        (Queued-unlocked (uartstart k s) t.left (after s.cpu) unlocked t.queued) in
    record {
      entered = r.entered;
      last = r.last;
      runs = rw (acquire_free s.cpu s.lock free.unlocked, release_held s.cpu free.settled) r.runs;
      left = r.left;
      order =
          r.order
          ∙ sym (append_assoc (uartstart k s).sent t.left r.entered)
          ∙ ap (λ l. l ++ r.entered) t.order
          ∙ append_assoc s.sent q r.entered;
      exact = r.exact ∙ ap (queue_run events) t.stops;
      queued = r.queued;
      free = r.free;
    }
run_events-Ran (putc k c ∷ events) s q free h =
    go (Bool-cases (length q == tx_buf_size)) (λ s q free h. run_events-Ran events s q free h)
  where
    full_test : (s.w == (s.r + tx_buf_size) % 2 ^ 64) ≡ (length q == tx_buf_size)
    full_test = is_full_lem s q h

    go :
        ((length q == tx_buf_size) ≡ true) ⊎ ((length q == tx_buf_size) ≡ false)
        → ((s : Uart) (q : List ℕ) → IsFree s.cpu s.lock → Queued s q → Ran events s q)
        → Ran (putc k c ∷ events) s q
    go (inl full) ih =
        let s' = record s { cpu = after s.cpu; lock = unlocked } in
        let r =
          ih s' q (after-IsFree s.cpu free.settled)
            (Queued-unlocked s q (after s.cpu) unlocked h) in
        record {
          entered = r.entered;
          last = r.last;
          runs = rw (uartputc_lem k c s true free h.works (full_test ∙ full), r.runs) refl;
          left = r.left;
          order = r.order;
          exact = rw full r.exact;
          queued = r.queued;
          free = r.free;
        }
    go (inr room) ih =
        let b = h.bounded in
        let less : length q < tx_buf_size = ground arith in
        let t = uartstart-Sent k (enqueue c s) (q ++ (c ∷ [])) (enqueue-Queued c s q less h) in
        let s' = record (uartstart k (enqueue c s)) { cpu = after s.cpu; lock = unlocked } in
        let r =
          ih s' t.left (after-IsFree s.cpu free.settled)
            (Queued-unlocked (uartstart k (enqueue c s)) t.left (after s.cpu) unlocked t.queued) in
        record {
          entered = c ∷ r.entered;
          last = r.last;
          runs = rw (uartputc_lem k c s false free h.works (full_test ∙ room), r.runs) refl;
          left = r.left;
          order =
              r.order
              ∙ sym (append_assoc (uartstart k (enqueue c s)).sent t.left r.entered)
              ∙ ap (λ l. l ++ r.entered) t.order
              ∙ append_assoc s.sent (q ++ (c ∷ [])) r.entered
              ∙ ap (λ l. s.sent ++ l) (append_assoc q (c ∷ []) r.entered);
          exact =
              let n = length-append q (c ∷ []) in
              let count : length t.left ≡ length q + 1 - k = omega (arith, t.stops) in
              rw room (ap (λ z. (c ∷ z.0, z.1)) (r.exact ∙ ap (queue_run events) count));
          queued = r.queued;
          free = r.free;
        }
