-- ===== src/Console/Typing.antt =====
-- `consoleintr` of kernel/console.c edits lines.
use os_project_cs.Prelude.{ℕ, ◌+◌, ◌%◌, ◌^◌, ◌≡◌, List, update, last}
use os_project_cs.Outcome.{ok}
use os_project_cs.Spinlock.Section.{IsFree}
use os_project_cs.Console.{Console, input_buf_size, consputc, consoleintr}
use os_project_cs.Console.Lines.{Lines, typed, Input}

-- The state after `c` is stored, before the line is looked at.
abbrev stored : ℕ → Console → Console
stored c s =
    let s1 = consputc c s in
    record s1 { buf = update s1.buf (s1.e % input_buf_size) c; e = (s1.e + 1) % 2 ^ 32 }

-- The input does not depend on the lock.
pub Input-unlocked :
    (s t : Console) (l : Lines)
    → t.buf ≡ s.buf
    → t.r ≡ s.r
    → t.w ≡ s.w
    → t.e ≡ s.e
    → Input s l
    → Input t l
Input-unlocked s t l buf r w e h = record {
  small = rw r h.small;
  bounded = h.bounded;
  written = rw (w, r) h.written;
  edited = rw (e, r) h.edited;
  holds = rw (buf, r) h.holds;
  one_line = h.one_line;
}

pub record Typed (c : ℕ) (s : Console) (l : Lines) : Type 0 where
  pub last : Console
  pub runs : consoleintr c s ≡ ok last
  pub input : Input last (typed c l)
  pub free : IsFree last.cpu last.lock
