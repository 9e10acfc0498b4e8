-- ===== src/Fs/Inode/Update.antt =====
-- `iupdate` and `ilock` of kernel/fs.c: an inode written to disk is read back.
use os_project_cs.Prelude.{
  ℕ, ◌+◌, ◌/◌, ◌%◌, ◌<◌, ◌≤◌, ◌≡◌, ◌≢◌, ◌⊎◌, inl, inr, refl, ◌∙◌, sym, ap, subst, true, false, ◌==◌,
  ltb, arith, update, length, ==_refl, ==_ne, ℕ_discrete, dec_lt,
}
use os_project_cs.Outcome.{ok}
use os_project_cs.Fs.{Fs, bread, brelse, holds, absorbed, log_write}
use os_project_cs.Fs.Room.{HasRoom, has_room, has_begun}
use os_project_cs.Fs.Inode.{
  Content, Inode, ipb, iblock, place, ndirect, read_dinode, write_dinode, iupdate, ilock,
}
use os_project_cs.Fs.Inode.Dinode.{
  Fits, read_dinode-write_dinode, write_dinode-outside, read_dinode-same,
}

-- The inode on disk, as processes see it.
abbrev pub dinode : Fs → ℕ → Content
dinode s inum = read_dinode (s.block (iblock inum s.sb)) (place inum)

-- `s` with inode `inum` on disk replaced.
abbrev pub rewritten : ℕ → Content → Fs → Fs
rewritten inum c s =
    let b = iblock inum s.sb in
    record s { block = update s.block b (write_dinode c (place inum) (s.block b)) }

pub dinode-rewritten :
    (inum : ℕ) (c : Content) (s : Fs) → Fits c → dinode (rewritten inum c s) inum ≡ c
dinode-rewritten inum c s f =
    let t : (iblock inum s.sb == iblock inum s.sb) ≡ true = ==_refl (iblock inum s.sb) in
    rw t (read_dinode-write_dinode c (place inum) (s.block (iblock inum s.sb)) f)

-- Inodes of one block stand apart.
place_apart :
    (i j : ℕ) → i ≢ j → i / ipb ≡ j / ipb → (place i + 64 ≤ place j) ⊎ (place j + 64 ≤ place i)
place_apart i j ne e = elim (dec_lt (i % ipb) (j % ipb)) [
  | yes l ↦ inl (omega arith)
  | no l ↦
      let d : i % ipb ≢ j % ipb = λ f. ne (omega arith) in
      elim (ℕ_discrete (i % ipb) (j % ipb)) [
        | yes f ↦ absurd (d f)
        | no f ↦ elim (dec_lt (j % ipb) (i % ipb)) [
          | yes g ↦ inr (omega arith)
          | no g ↦ absurd (d (omega arith))
        ]
      ]
]

pub dinode-rewritten_ne :
    (inum : ℕ) (c : Content) (s : Fs) (i : ℕ)
    → length c.addrs ≡ ndirect + 1
    → inum ≢ i
    → dinode (rewritten inum c s) i ≡ dinode s i
dinode-rewritten_ne inum c s i places ne = elim (ℕ_discrete (iblock inum s.sb) (iblock i s.sb)) [
  | no other ↦
      let t : (iblock inum s.sb == iblock i s.sb) ≡ false =
        ==_ne (iblock inum s.sb) (iblock i s.sb) other in
      rw t refl
  | yes same ↦
      let t : (iblock inum s.sb == iblock i s.sb) ≡ true = ground arith in
      let apart = place_apart inum i ne (omega arith) in
      rw (t, same)
        (read_dinode-same (s.block (iblock i s.sb))
          (write_dinode c (place inum) (s.block (iblock i s.sb))) (place i)
          (λ k l u.
            write_dinode-outside c (place inum) (s.block (iblock i s.sb)) k places
              (outside k apart l u)))
]
  where
    outside :
        (k : ℕ)
        → (place inum + 64 ≤ place i) ⊎ (place i + 64 ≤ place inum)
        → place i ≤ k
        → k < place i + 64
        → (k < place inum) ⊎ (place inum + 64 ≤ k)
    outside k (inl a) l u = inr (omega arith)
    outside k (inr a) l u = inl (omega arith)

-- What `iupdate` does.
pub record Updated (ip : Inode) (s : Fs) : Type 0 where
  pub last : Fs
  pub runs : iupdate ip s ≡ ok last
  pub reads_back :
      (jp : Inode)
      → jp.inum ≡ ip.inum
      → 0 < jp.ref
      → jp.locked ≡ false
      → jp.valid ≡ false
      → ilock jp last ≡ ok (record jp { locked = true; valid = true; content = ip.content }, last)
  pub on_disk : dinode last ip.inum ≡ ip.content
  pub others : (i : ℕ) → ip.inum ≢ i → dinode last i ≡ dinode s i
  pub blocks : (b : ℕ) → b ≢ iblock ip.inum s.sb → last.block b ≡ s.block b
  pub same_sb : last.sb ≡ s.sb
  pub same_held : last.held ≡ s.held
  pub one_block : last.logged ≡ absorbed (iblock ip.inum s.sb) s.logged

-- `ilock` of an inode that is not in memory reads it from disk.
pub ilock_reads :
    (jp : Inode) (s : Fs)
    → 0 < jp.ref
    → jp.locked ≡ false
    → jp.valid ≡ false
    → holds s.held (iblock jp.inum s.sb) ≡ false
    → (dinode s jp.inum).type ≢ 0
    → ilock jp s ≡ ok (record jp { locked = true; valid = true; content = dinode s jp.inum }, s)
unfolding ilock bread brelse
ilock_reads jp s counted unlocked unread free typed =
    let t : ltb jp.ref 1 ≡ false = ground arith in
    let u : (iblock jp.inum s.sb == iblock jp.inum s.sb) ≡ true = ==_refl (iblock jp.inum s.sb) in
    let v : ((dinode s jp.inum).type == 0) ≡ false = ==_ne (dinode s jp.inum).type 0 typed in
    rw (t, unlocked, unread, free, u, v) refl

-- `iupdate` puts the inode on disk: `ilock` of any later copy of it reads exactly what was written, and
-- every other inode on disk, in the same block too, stays as it was. It uses one block of the log, for
-- which the operation must have room.
pub iupdate-Updated :
    (ip : Inode) (s : Fs)
    → Fits ip.content
    → ip.content.type ≢ 0
    → holds s.held (iblock ip.inum s.sb) ≡ false
    → HasRoom 1 s
    → Updated ip s
unfolding iupdate bread brelse log_write
iupdate-Updated ip s f typed free room =
    let b = iblock ip.inum s.sb in
    let u : (b == b) ≡ true = ==_refl b in
    let last : Fs = record (rewritten ip.inum ip.content s) { logged = absorbed b s.logged } in
    let disk : dinode last ip.inum ≡ ip.content = dinode-rewritten ip.inum ip.content s f in
    record {
      last = last;
      runs = rw (free, has_room 0 s room, has_begun 1 s room, u) refl;
      reads_back = λ jp e counted unlocked unread.
          let here : dinode last jp.inum ≡ ip.content = ap (dinode last) e ∙ disk in
          ilock_reads jp last counted unlocked unread
            (subst (λ i. holds s.held (iblock i s.sb) ≡ false) (sym e) free)
            (λ z. typed (sym (ap (λ c. c.type) here) ∙ z))
          ∙ ap (λ c. ok (record jp { locked = true; valid = true; content = c }, last)) here;
      on_disk = disk;
      others = λ i ne. dinode-rewritten_ne ip.inum ip.content s i f.places ne;
      blocks = λ c ne. let t : (b == c) ≡ false = ==_ne b c (λ e. ne (sym e)) in rw t refl;
      same_sb = refl;
      same_held = refl;
      one_block = refl;
    }
