-- ===== src/Console.antt =====
-- kernel/console.c: the input lines of the console. The state has the characters sent to the serial
-- port, the last first, and how often the readers were woken. A call of consoleread that sleeps
-- returns with the lock released, and is resumed by a call with the bytes that are left.
pub mod Lines
pub mod Erase
pub mod Typing
pub mod Taken
pub mod Reading
mod Tests
use os_project_cs.Prelude.{
  Option, none, some, ℕ, zero, suc, ◌+◌, ◌-◌, ◌%◌, ◌^◌, Bool, true, false, not, ◌&&◌, ◌||◌, List,
  [], ◌∷◌, ◌++◌, ◌==◌, ltb, if◌then◌else◌, update, length,
}
use os_project_cs.Outcome.{Outcome, ok, blocked, ◌>>=◌}
use os_project_cs.Spinlock.{Cpu, Spinlock, acquire, release}

abbrev pub input_buf_size : ℕ
input_buf_size = 128

abbrev pub backspace : ℕ
backspace = 0x100

-- The characters '\n' and '\r', Control-D, -H, -P and -U, and delete.
abbrev pub newline : ℕ
newline = 10

abbrev pub carriage_return : ℕ
carriage_return = 13

abbrev pub control_d : ℕ
control_d = 4

abbrev pub control_h : ℕ
control_h = 8

abbrev pub control_p : ℕ
control_p = 16

abbrev pub control_u : ℕ
control_u = 21

abbrev pub delete : ℕ
delete = 127

-- `cons`, with the hart that runs and `panicked` of kernel/printf.c.
pub record Console : Type 0 where
  pub cpu : Cpu
  pub lock : Spinlock
  pub panicked : Bool
  pub buf : ℕ → ℕ
  pub r : ℕ
  pub w : ℕ
  pub e : ℕ
  pub sent : List ℕ
  pub woken : ℕ

-- A backspace is sent as '\b', ' ' and '\b'. `uartputc_sync` waits until the port has taken a character.
unfoldable pub consputc : ℕ → Console → Console
consputc c s =
    if c == backspace
    then record s { sent = 8 ∷ 32 ∷ 8 ∷ s.sent }
    else record s { sent = c ∷ s.sent }

-- `cons.e--; consputc(BACKSPACE);`, with `e` a `uint`.
unfoldable pub erase : Console → Console
unfolding consputc
erase s = consputc backspace (record s { e = (s.e + (2 ^ 32 - 1)) % 2 ^ 32 })

-- The loop for Control-U, for at most `k` rounds.
unfoldable pub erase_rounds : ℕ → Console → Console
erase_rounds zero s = s
erase_rounds (suc k) s =
    let rest = erase_rounds k (erase s) in
    if not (s.e == s.w) && not (s.buf ((s.e + (2 ^ 32 - 1)) % 2 ^ 32 % input_buf_size) == newline)
    then rest
    else s

-- `cons.e - cons.r`, on `uint`s.
abbrev pub used : Console → ℕ
used s = (s.e + (2 ^ 32 - s.r)) % 2 ^ 32

-- The default branch of `consoleintr`.
unfoldable pub store : ℕ → Console → Console
unfolding consputc
store c s =
    if not (c == 0) && ltb (used s) input_buf_size
    then (let c' = if c == carriage_return then newline else c in
        let s1 = consputc c' s in
        let s2 = record s1 {
          buf = update s1.buf (s1.e % input_buf_size) c';
          e = (s1.e + 1) % 2 ^ 32;
        } in
        if ((c' == newline) || (c' == control_d)) || (used s2 == input_buf_size)
        then record s2 { w = s2.e; woken = s2.woken + 1 }
        else s2)
    else s

-- The `switch` of `consoleintr`; procdump only prints.
unfoldable pub handle : ℕ → Console → Console
unfolding erase_rounds erase store
handle c s =
    if c == control_p
    then s
    else if c == control_u
    then erase_rounds input_buf_size s
    else if (c == control_h) || (c == delete)
    then (if s.e == s.w then s else erase s)
    else store c s

-- Whether characters were echoed.
abbrev pub echoed : Console → Console → Bool
echoed s t = ltb (length s.sent) (length t.sent)

-- After a panic the first echo spins for ever in `uartputc_sync`.
unfoldable pub consoleintr : ℕ → Console → Outcome Console
unfolding handle
consoleintr c s = do
  (cpu, lk) ← acquire s.cpu s.lock
  let t = handle c s
  if s.panicked && echoed s t
      then blocked
      else do (cpu', lk') ← release cpu lk; ok (record t { cpu = cpu'; lock = lk' })

-- How a call of `consoleread` ends: with a count, with -1, or asleep with bytes left to read.
pub data ReadEnd : Type 0 where
  returned : ℕ → ReadEnd
  interrupted : ReadEnd
  asleep : ℕ → ReadEnd

-- The loop of `consoleread` with `n` of `target` bytes left: its end, and the bytes copied out.
-- `copyout` says whether the byte can be stored when so many are left.
unfoldable pub read_rounds : (ℕ → Bool) → Bool → ℕ → ℕ → Console → ReadEnd × List ℕ × Console
read_rounds copyout killed target zero s = (returned target, [], s)
read_rounds copyout killed target (suc n) s =
    let c = s.buf (s.r % input_buf_size) in
    let s1 = record s { r = (s.r + 1) % 2 ^ 32 } in
    let rest = read_rounds copyout killed target n s1 in
    if s.r == s.w
    then (if killed then interrupted else asleep (suc n), [], s)
    else if c == control_d
    then (
      returned (target - suc n),
      [],
      if ltb (suc n) target then record s1 { r = (s1.r + (2 ^ 32 - 1)) % 2 ^ 32 } else s1,
    )
    else if not (copyout (suc n))
    then (returned (target - suc n), [], s1)
    else if c == newline
    then (returned (target - n), c ∷ [], s1)
    else (rest.0, c ∷ rest.1, rest.2)

unfoldable pub consoleread :
    (ℕ → Bool) → Bool → ℕ → ℕ → Console → Outcome (ReadEnd × List ℕ × Console)
unfolding read_rounds
consoleread copyout killed target n s = do
  (cpu, lk) ← acquire s.cpu s.lock
  let out = read_rounds copyout killed target n s
  (cpu', lk') ← release cpu lk
  ok (out.0, out.1, record (out.2) { cpu = cpu'; lock = lk' })

-- `consolewrite` from byte `i` on, with `k` bytes left: how many it takes, and the bytes that it hands
-- to `uartputc`. `copyin` reads a byte.
unfoldable pub consolewrite : (ℕ → Option ℕ) → ℕ → ℕ → ℕ × List ℕ
consolewrite copyin zero i = (i, [])
consolewrite copyin (suc k) i =
    let rest = consolewrite copyin k (i + 1) in
    elim (copyin i) [ none ↦ (i, []) | some c ↦ (rest.0, c ∷ rest.1) ]
