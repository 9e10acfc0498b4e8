-- ===== src/Fs/Tests.antt =====
-- Runs of kernel/fs.c on a small disk: four blocks with a free one, and one file of one block.
use os_project_cs.Prelude.{
  ℕ, zero, suc, ◌<◌, ◌≤◌, ◌≡◌, refl, ◌∙◌, sym, ap, subst, true, false, ◌&&◌, List, [], ◌∷◌, some,
  ◌==◌, if◌then◌else◌, arith, get_elem?, replicate,
}
use mathlib.Core.Option.{some-injective, none-ne-some}
use os_project_cs.Spinlock.Section.{IsFree, unlocked}
use os_project_cs.Fs.{Fs}
use os_project_cs.Fs.Room.{HasRoom}
use os_project_cs.Fs.Balloc.{balloc}
use os_project_cs.Fs.Balloc.Alloc.{MapOk, used}
use os_project_cs.Fs.Balloc.Map.{Allocated, balloc-Allocated, Freed, bfree-Freed}
use os_project_cs.Fs.Inode.{Inode}
use os_project_cs.Fs.Inode.Dinode.{Fits, Words}
use os_project_cs.Fs.Inode.Update.{Updated, iupdate-Updated}
use os_project_cs.Fs.Itable.{Itable, iget, is_for}
use os_project_cs.Fs.Itable.Refs.{Counted}
use os_project_cs.Fs.Itable.Iget.{Got, iget-Got}
use os_project_cs.Fs.Data.{Copyin, Copyout}
use os_project_cs.Fs.Data.Written.{Written}
use os_project_cs.Fs.Dir.{skipelem, slash}
use os_project_cs.Fs.Dir.Skip.{Skips, skipelem-Skips}

-- Of the blocks 0 to 3 the last is free; block 2 is the map.
abbrev disk : Fs
disk = record {
  sb = record {
    magic = 0x10203040;
    size = 4;
    nblocks = 1;
    ninodes = 16;
    nlog = 0;
    logstart = 0;
    inodestart = 1;
    bmapstart = 2;
  };
  block = λ b i. if (b == 2) && (i == 0) then 7 else 0;
  held = [];
  logged = [];
  outstanding = 1;
  room = 29;
}

disk_bytes : (b i : ℕ) → disk.block b i < 256
disk_bytes b i = ground arith

disk-MapOk : MapOk disk
disk-MapOk = record {
  bytes = disk_bytes;
  marked =
      λ b c lb lc e. let home : b ≡ 2 = omega arith in subst (λ n. used disk n ≡ 1) (sym home) refl;
  boot = refl;
  map_free = λ c l. refl;
  free_free = λ b l u. refl;
}

room_for : (n : ℕ) → n ≤ 29 → HasRoom n disk
room_for n l = (omega arith, omega arith)

balloc-Allocated_example : Allocated disk (balloc disk)
balloc-Allocated_example = balloc-Allocated disk disk-MapOk (room_for 2 (omega arith))

bfree-Freed_example : Freed 1 disk
bfree-Freed_example = bfree-Freed 1 disk disk_bytes refl refl (room_for 1 (omega arith))

-- A file of 10 bytes in block 50; inode 5.
abbrev file : Inode
file = record {
  dev = 1;
  inum = 5;
  ref = 1;
  locked = true;
  valid = true;
  content = record {
    type = 2;
    major = 0;
    minor = 0;
    nlink = 1;
    size = 10;
    addrs = 50 ∷ replicate 12 0;
  };
}

zeros-Words : (n : ℕ) → Words (replicate n 0)
zeros-Words zero = tt
zeros-Words (suc n) = (omega arith, zeros-Words n)

file-Fits : Fits file.content
file-Fits = record {
  type = omega arith;
  major = omega arith;
  minor = omega arith;
  nlink = omega arith;
  size = omega arith;
  words = (omega arith, zeros-Words 12);
  places = refl;
}

iupdate-Updated_example : Updated file disk
iupdate-Updated_example =
    iupdate-Updated file disk file-Fits (λ e. omega arith) refl (room_for 1 (omega arith))

-- The file in the first of two entries.
abbrev table : Itable
table = record {
  cpu = record { id = 0; noff = 0; intena = false; intr = true };
  lock = unlocked;
  inode = file ∷ record file { inum = 18; ref = 0 } ∷ [];
  fs = disk;
}

abbrev table_holders : ℕ → ℕ
table_holders i = if i == 0 then 1 else 0

table-IsFree : IsFree table.cpu table.lock
table-IsFree = record { settled = refl; unlocked = refl; unowned = refl }

table-Counted : Counted table table_holders
table-Counted = record { free = table-IsFree; exact = exact; unique = unique }
  where
    exact : (i : ℕ) (ip : Inode) → get_elem? table.inode i ≡ some ip → ip.ref ≡ table_holders i
    exact zero ip h = ap (λ k. k.ref) (some-injective _ _ (sym h))
    exact (suc zero) ip h = ap (λ k. k.ref) (some-injective _ _ (sym h))
    exact (suc (suc i)) ip h = absurd (none-ne-some _ h)

    first :
        (dev inum i : ℕ) (ip : Inode)
        → get_elem? table.inode i ≡ some ip
        → is_for dev inum ip ≡ true
        → i ≡ 0
    first dev inum zero ip h is = refl
    first dev inum (suc zero) ip h is =
        let idle : ip.ref ≡ 0 = ap (λ k. k.ref) (some-injective _ _ (sym h)) in
        absurd (ground arith)
    first dev inum (suc (suc i)) ip h is = absurd (none-ne-some _ h)

    unique :
        (dev inum i j : ℕ) (ip jp : Inode)
        → get_elem? table.inode i ≡ some ip
        → get_elem? table.inode j ≡ some jp
        → is_for dev inum ip ≡ true
        → is_for dev inum jp ≡ true
        → i ≡ j
    unique dev inum i j ip jp hi hj fi fj =
        first dev inum i ip hi fi ∙ sym (first dev inum j jp hj fj)

iget-Got_example : Got 1 20 table table_holders (iget 1 20 table)
iget-Got_example = iget-Got 1 20 table table_holders table-Counted

-- Copies within the kernel.
abbrev kernel_out : Copyout
kernel_out dst from n m = (false, m)

abbrev kernel_in : Copyin
kernel_in src n m to a = (false, to)

-- The path `/a//b`.
abbrev path : List ℕ
path = slash ∷ 97 ∷ slash ∷ slash ∷ 98 ∷ []

skipelem-Skips_example : Skips path (λ i. 0) (skipelem path (λ i. 0))
skipelem-Skips_example = skipelem-Skips path (λ i. 0)
