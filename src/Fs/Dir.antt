-- ===== src/Fs/Dir.antt =====
-- Directories and paths of kernel/fs.c: namecmp, dirlookup, dirlink, skipelem and namex. A path is the
-- list of its bytes before the 0; a name is 14 bytes from place 0 on.
pub mod Skip
use os_project_cs.Prelude.{
  ℕ, zero, suc, ◌+◌, ◌-◌, ◌*◌, ◌/◌, ◌%◌, ◌^◌, Bool, true, false, not, ◌&&◌, ◌||◌, List, [], ◌∷◌,
  Option, none, some, ◌==◌, ltb, leb, if◌then◌else◌, update, get_elem?, set, length, take, ℤ, pos,
}
use os_project_cs.Outcome.{Message, Outcome, ok, panic, blocked, ◌>>=◌}
use os_project_cs.Str.{strncmp, strncpy}
use os_project_cs.Fs.{Fs}
use os_project_cs.Fs.Inode.{Content, Inode, Bytes, get_short, put_short, ilock, iunlock}
use os_project_cs.Fs.Itable.{Itable, iget, idup, iput}
use os_project_cs.Fs.Data.{Copyout, Copyin, readi, writei, moved}

abbrev pub dirsiz : ℕ
dirsiz = 14

-- `sizeof(struct dirent)`: a short, and the name.
abbrev pub dirent_size : ℕ
dirent_size = 16

-- Two names of which the first starts at `p` and the second at `q`.
unfoldable pub namecmp : ℕ → ℕ → Bytes → ℤ
unfolding strncmp
namecmp p q m = strncmp p q dirsiz m

-- `de`, and behind it the name.
abbrev pub beside : Bytes → Bytes → Bytes
beside de name = moved dirent_size name 0 dirsiz de

abbrev pub is_zero : ℤ → Bool
is_zero (pos n) = n == 0
is_zero _ = false

-- The copies of `readi` and `writei` to kernel addresses do not reach user memory.
abbrev no_copyout : Copyout
no_copyout dst from n m = (false, m)

abbrev no_copyin : Copyin
no_copyin src n m to a = (false, to)

-- The read of the entry at `off` into `de`: the entry, which is at address 0.
unfoldable pub read_entry : Message → ℕ → Inode × Fs → Outcome (Bytes × Inode × Fs)
unfolding readi
read_entry message off (dp, s) = do
  (n, dp', s', de) ← readi no_copyout false 0 off dirent_size (dp, s, (λ _. 0))
  if n == dirent_size then ok (de, dp', s') else panic message

-- The loop of `dirlookup` from `off` on, for at most `k` entries: the number of the inode and the
-- offset of the entry.
unfoldable pub lookup_rounds : ℕ → Bytes → ℕ → Inode × Fs → Outcome (Option (ℕ × ℕ) × Inode × Fs)
unfolding read_entry namecmp get_short
lookup_rounds zero name off (dp, s) = ok (none, dp, s)
lookup_rounds (suc k) name off (dp, s) =
    let round = (do
      (de, dp', s') ← read_entry Message.dirlookup_read off (dp, s)
      if not (get_short de 0 == 0) && is_zero (namecmp dirent_size 2 (beside de name))
          then ok (some (get_short de 0, off), dp', s')
          else lookup_rounds k name (off + dirent_size) (dp', s')) in
    if ltb off dp.content.size then round else ok (none, dp, s)

-- `dirlookup` in the directory of entry `i`: the entry of the inode, and the offset.
unfoldable pub dirlookup : ℕ → Bytes → Itable → Outcome (Option (ℕ × ℕ) × Itable)
unfolding lookup_rounds iget
dirlookup i name t = elim (get_elem? t.inode i) [
  | none ↦ blocked
  | some dp ↦ if not (dp.content.type == 1) then panic Message.dirlookup_not_dir else do
    (found, dp', s) ← lookup_rounds (dp.content.size / dirent_size + 1) name 0 (dp, t.fs)
    let t' = record t { inode = set t.inode i dp'; fs = s }
    elim found [
      | none ↦ ok (none, t')
      | some (inum, off) ↦ do (j, t'') ← iget dp.dev inum t'; ok (some (j, off), t'')
    ]
]

-- The loop of `dirlink` from `off` on: the offset of the first empty entry, or the end.
unfoldable pub empty_rounds : ℕ → ℕ → Inode × Fs → Outcome (ℕ × Inode × Fs)
unfolding read_entry get_short
empty_rounds zero off (dp, s) = ok (off, dp, s)
empty_rounds (suc k) off (dp, s) =
    let round = (do
      (de, dp', s') ← read_entry Message.dirlink_read off (dp, s)
      if get_short de 0 == 0
          then ok (off, dp', s')
          else empty_rounds k (off + dirent_size) (dp', s')) in
    if ltb off dp.content.size then round else ok (off, dp, s)

-- `dirlink` in the directory of entry `i`: whether it returned 0.
unfoldable pub dirlink : ℕ → Bytes → ℕ → Itable → Outcome (Bool × Itable)
unfolding dirlookup iput empty_rounds writei put_short strncpy
dirlink i name inum t = do
  (found, t1) ← dirlookup i name t
  elim found [
    | some (j, _) ↦ do t2 ← iput j t1; ok (false, t2)
    | none ↦ elim (get_elem? t1.inode i) [
      | none ↦ blocked
      | some dp ↦ do
        (off, dp1, s1) ← empty_rounds (dp.content.size / dirent_size + 1) 0 (dp, t1.fs)
        let de = put_short inum 0 (strncpy 2 dirent_size dirsiz (beside (λ _. 0) name))
        (n, dp2, s2) ← writei no_copyin false de 0 off dirent_size (dp1, s1)
        ok (n == dirent_size, record t1 { inode = set t1.inode i dp2; fs = s2 })
    ]
  ]

abbrev pub slash : ℕ
slash = 47

-- `while(*path == '/') path++;`
unfoldable pub skip_slashes : List ℕ → List ℕ
skip_slashes [] = []
skip_slashes (c ∷ l) = let rest = skip_slashes l in if c == slash then rest else c ∷ l

-- `while(*path != '/' && *path != 0) path++;`: the bytes passed, and the rest.
unfoldable pub skip_name : List ℕ → List ℕ × List ℕ
skip_name [] = ([], [])
skip_name (c ∷ l) =
    let rest = skip_name l in if c == slash then ([], c ∷ l) else (c ∷ rest.0, rest.1)

-- Bytes copied to the start of `name`.
abbrev pub copied : List ℕ → Bytes → Bytes
copied [] name i = name i
copied (c ∷ l) name zero = c
copied (c ∷ l) name (suc i) = copied l (λ j. name (suc j)) i

-- `skipelem`: the rest of the path, and `name`.
unfoldable pub skipelem : List ℕ → Bytes → Option (List ℕ × Bytes)
unfolding skip_slashes skip_name
skipelem path name = elim (skip_slashes path) [
  | [] ↦ none
  | c ∷ l ↦
      let s = skip_name (c ∷ l) in
      let len = length (s.0) in
      let name' =
        if leb dirsiz len
        then copied (take dirsiz (s.0)) name
        else update (copied (s.0) name) len 0 in
      some (skip_slashes (s.1), name')
]

-- `ilock`, `iunlock` and `iunlockput` of entry `i`.
unfoldable pub ilock_at : ℕ → Itable → Outcome Itable
unfolding ilock
ilock_at i t = elim (get_elem? t.inode i) [
  | none ↦ blocked
  | some ip ↦ do (ip', s) ← ilock ip t.fs; ok (record t { inode = set t.inode i ip'; fs = s })
]

unfoldable pub iunlock_at : ℕ → Itable → Outcome Itable
unfolding iunlock
iunlock_at i t = elim (get_elem? t.inode i) [
  | none ↦ blocked
  | some ip ↦ do ip' ← iunlock ip; ok (record t { inode = set t.inode i ip' })
]

unfoldable pub iunlockput : ℕ → Itable → Outcome Itable
unfolding iunlock_at iput
iunlockput i t = do t' ← iunlock_at i t; iput i t'

abbrev is_dir : ℕ → Itable → Bool
is_dir i t = elim (get_elem? t.inode i) [ none ↦ false | some ip ↦ ip.content.type == 1 ]

abbrev pub is_empty : List ℕ → Bool
is_empty [] = true
is_empty _ = false

-- `*path == '/'`.
abbrev pub is_absolute : List ℕ → Bool
is_absolute [] = false
is_absolute (c ∷ _) = c == slash

-- The loop of `namex` at entry `i`, for at most `k` elements.
unfoldable pub namex_rounds :
    ℕ → List ℕ → Bool → Bytes → ℕ → Itable → Outcome (Option ℕ × Bytes × Itable)
unfolding skipelem ilock_at iunlock_at iunlockput dirlookup iput
namex_rounds zero path parent name i t = blocked
namex_rounds (suc k) path parent name i t = elim (skipelem path name) [
  | none ↦ if parent then (do t' ← iput i t; ok (none, name, t')) else ok (some i, name, t)
  | some (path', name') ↦ do
    t1 ← ilock_at i t
    if not (is_dir i t1)
        then (do t2 ← iunlockput i t1; ok (none, name', t2))
        else if parent && is_empty path'
        then (do t2 ← iunlock_at i t1; ok (some i, name', t2))
        else do
          (next, t2) ← dirlookup i name' t1
          t3 ← iunlockput i t2
          elim next [
            | none ↦ ok (none, name', t3)
            | some (j, _) ↦ namex_rounds k path' parent name' j t3
          ]
]

-- `namex`, with the entry of the process's current directory; a path has at most as many elements as
-- bytes.
unfoldable pub namex : ℕ → List ℕ → Bool → Bytes → Itable → Outcome (Option ℕ × Bytes × Itable)
unfolding iget idup namex_rounds
namex cwd path parent name t = do
  (i, t') ← (if is_absolute path then iget 1 1 t else (do t' ← idup cwd t; ok (cwd, t')))
  namex_rounds (length path + 1) path parent name i t'

unfoldable pub namei : ℕ → List ℕ → Itable → Outcome (Option ℕ × Itable)
unfolding namex
namei cwd path t = do (i, name, t') ← namex cwd path false (λ _. 0) t; ok (i, t')

unfoldable pub nameiparent : ℕ → List ℕ → Bytes → Itable → Outcome (Option ℕ × Bytes × Itable)
unfolding namex
nameiparent cwd path name t = namex cwd path true name t
