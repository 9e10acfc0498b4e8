-- ===== src/File.antt =====
-- The table of open files of kernel/file.c. A file is named by its place in `ftable.file`.
pub mod Holders
mod Tests
use os_project_cs.Prelude.{
  ℕ, zero, suc, ◌+◌, ◌-◌, Bool, true, false, List, [], ◌∷◌, Option, none, some, ltb, ◌==◌,
  if◌then◌else◌, get_elem?, set,
}
use os_project_cs.Outcome.{Outcome, ok, panic, blocked, Message, ◌>>=◌}
use os_project_cs.Spinlock.{Cpu, Spinlock, acquire, release}

pub data FileType : Type 0 where
  fd_none fd_pipe fd_inode fd_device : FileType

-- `struct file`; `pipe` and `ip` are addresses.
pub record File : Type 0 where
  pub type : FileType
  pub ref : ℕ
  pub readable : Bool
  pub writable : Bool
  pub pipe : ℕ
  pub ip : ℕ
  pub off : ℕ
  pub major : ℕ

-- `ftable` and the hart that runs.
pub record Ftable : Type 0 where
  pub cpu : Cpu
  pub lock : Spinlock
  pub file : List File

-- The loop of `filealloc` from file `i` on.
unfoldable pub alloc_rounds : ℕ → List File → Option ℕ × List File
alloc_rounds i [] = (none, [])
alloc_rounds i (f ∷ fs) =
    let rest = alloc_rounds (i + 1) fs in
    if f.ref == 0 then (some i, record f { ref = 1 } ∷ fs) else (rest.0, f ∷ rest.1)

-- `filealloc`: the file, or the null pointer.
unfoldable pub filealloc : Ftable → Outcome (Option ℕ × Ftable)
unfolding alloc_rounds
filealloc s = do
  (c, lk) ← acquire s.cpu s.lock
  let r = alloc_rounds 0 s.file
  (c', lk') ← release c lk
  ok (r.0, record { cpu = c'; lock = lk'; file = r.1 })

-- A pointer to a file always points into the table.
abbrev pub at_file {ℓ} : {A : Type ℓ} → Ftable → ℕ → (File → Outcome A) → Outcome A
at_file s i g = elim (get_elem? s.file i) [ none ↦ blocked | some f ↦ g f ]

unfoldable pub filedup : ℕ → Ftable → Outcome Ftable
filedup i s = at_file s i (λ f. do
  (c, lk) ← acquire s.cpu s.lock
  if ltb f.ref 1 then panic Message.filedup else do
    (c', lk') ← release c lk
    ok (record { cpu = c'; lock = lk'; file = set s.file i (record f { ref = f.ref + 1 }) }))

-- What `fileclose` still has to give back after the critical section: nothing, an end of a pipe by
-- `pipeclose`, or an inode by `iput`.
pub data Closing : Type 0 where
  still_open : Closing
  nothing : Closing
  end_of_pipe : ℕ → Bool → Closing
  inode : ℕ → Closing

abbrev pub to_close : File → Closing
to_close f = elim f.type [
  | fd_none ↦ nothing
  | fd_pipe ↦ end_of_pipe f.pipe f.writable
  | fd_inode ↦ inode f.ip
  | fd_device ↦ inode f.ip
]

unfoldable pub fileclose : ℕ → Ftable → Outcome (Closing × Ftable)
fileclose i s = at_file s i (λ f. do
  (c, lk) ← acquire s.cpu s.lock
  if ltb f.ref 1 then panic Message.fileclose else do
    (c', lk') ← release c lk
    ok (
        if ltb 0 (f.ref - 1)
        then (
          still_open,
          record { cpu = c'; lock = lk'; file = set s.file i (record f { ref = f.ref - 1 }) },
        )
        else (
          to_close f,
          record {
            cpu = c';
            lock = lk';
            file = set s.file i (record f { ref = 0; type = fd_none });
          },
        )))
