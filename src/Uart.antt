-- ===== src/Uart.antt =====
-- kernel/uart.c: the transmit buffer of the serial port. The port takes a number of characters before
-- it is busy, which is an argument. The state has the characters written to it, the oldest first, and
-- how often writers were woken.
pub mod Queue
mod Tests
use os_project_cs.Prelude.{
  ℕ, zero, suc, ◌+◌, ◌%◌, ◌^◌, Bool, true, false, List, [], ◌∷◌, ◌++◌, ◌==◌, if◌then◌else◌, update,
}
use os_project_cs.Outcome.{Outcome, ok, blocked, ◌>>=◌}
use os_project_cs.Spinlock.{Cpu, Spinlock, acquire, release}

abbrev pub tx_buf_size : ℕ
tx_buf_size = 32

-- `uart_tx_lock`, `uart_tx_buf`, `uart_tx_w` and `uart_tx_r`, with the hart that runs and `panicked` of
-- kernel/printf.c.
pub record Uart : Type 0 where
  pub cpu : Cpu
  pub lock : Spinlock
  pub panicked : Bool
  pub buf : ℕ → ℕ
  pub w : ℕ
  pub r : ℕ
  pub sent : List ℕ
  pub woken : ℕ

-- The character at `uart_tx_r` goes to the port.
unfoldable pub send : Uart → Uart
send s = record s {
  r = (s.r + 1) % 2 ^ 64;
  woken = s.woken + 1;
  sent = s.sent ++ (s.buf (s.r % tx_buf_size) ∷ []);
}

-- `uartstart`, with a port that takes `k` characters before it is busy.
unfoldable pub uartstart : ℕ → Uart → Uart
unfolding send
uartstart zero s = s
uartstart (suc k) s = let rest = uartstart k (send s) in if s.w == s.r then s else rest

-- `uart_tx_buf[uart_tx_w % UART_TX_BUF_SIZE] = c; uart_tx_w += 1;`
unfoldable pub enqueue : ℕ → Uart → Uart
enqueue c s = record s { buf = update s.buf (s.w % tx_buf_size) c; w = (s.w + 1) % 2 ^ 64 }

-- What `uartputc` does with the lock held; with the buffer full it sleeps.
unfoldable pub put_or_sleep : ℕ → ℕ → Cpu → Spinlock → Uart → Outcome (Bool × Uart)
unfolding uartstart enqueue
put_or_sleep k c cpu lk s =
    if s.w == (s.r + tx_buf_size) % 2 ^ 64
    then (do (cpu', lk') ← release cpu lk; ok (false, record s { cpu = cpu'; lock = lk' }))
    else (do
      let t = uartstart k (enqueue c s)
      (cpu', lk') ← release cpu lk
      ok (true, record t { cpu = cpu'; lock = lk' }))

-- `uartputc`: whether the character is in the buffer; otherwise the call sleeps, with the lock
-- released, and begins again when it is woken. After a panic it spins for ever.
unfoldable pub uartputc : ℕ → ℕ → Uart → Outcome (Bool × Uart)
unfolding put_or_sleep
uartputc k c s = do
  (cpu, lk) ← acquire s.cpu s.lock
  if s.panicked then blocked else put_or_sleep k c cpu lk s

-- The end of `uartintr`, which sends buffered characters, after its calls of `consoleintr`.
unfoldable pub send_buffered : ℕ → Uart → Outcome Uart
unfolding uartstart
send_buffered k s = do
  (cpu, lk) ← acquire s.cpu s.lock
  let t = uartstart k s
  (cpu', lk') ← release cpu lk
  ok (record t { cpu = cpu'; lock = lk' })
