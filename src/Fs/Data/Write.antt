-- ===== src/Fs/Data/Write.antt =====
-- The loop of `writei` of kernel/fs.c over blocks that are allocated.
use os_project_cs.Prelude.{
  ℕ, zero, suc, ◌+◌, ◌-◌, ◌*◌, ◌/◌, ◌%◌, ◌<◌, ◌≤◌, ◌≡◌, ◌≢◌, refl, ◌∙◌, sym, ap, Bool, true, arith,
  ==_refl, ==_ne, ℕ_discrete, dec_lt, subst, lt→ltb, le→ltb-false, ◌∷◌, update, if◌then◌else◌, ◌==◌,
  false,
}
use os_project_cs.Outcome.{ok}
use os_project_cs.Log.{bsize}
use os_project_cs.Fs.{Fs, absorbed, log_write}
use os_project_cs.Fs.Room.{HasRoom, has_room, has_begun, room_left}
use os_project_cs.Fs.Balloc.Alloc.{bread_free, brelse_held}
use os_project_cs.Fs.Inode.{Inode, Bytes}
use os_project_cs.Fs.Data.{Copyin, moved, either_copyin, write_rounds, maxfile}
use os_project_cs.Fs.Data.Bmap.{block_of, indirect_of, IsMapped, bmap-IsMapped}
use os_project_cs.Fs.Data.Read.{
  file_byte, delivered, chunk, fuel_left, delivered-moved, delivered_none,
}

-- In how many blocks the `r` bytes from `off` on stand.
abbrev pub spanned : ℕ → ℕ → ℕ
spanned r off = if r == 0 then 0 else (off % bsize + r + (bsize - 1)) / bsize

-- A round of the loop is one block less.
spanned_next :
    (r off : ℕ)
    → 0 < r
    → spanned r off + 1 ≡ suc (spanned (r - chunk r off) (off + chunk r off) + 1)
spanned_next r off some_left = elim (dec_lt (bsize - off % bsize) r) [
  | no last ↦
      let e : (r == 0) ≡ false = ground arith in
      let f : (r - chunk r off == 0) ≡ true = ground arith in rw (e, f) (omega arith)
  | yes further ↦
      let e : (r == 0) ≡ false = ground arith in
      let f : (r - chunk r off == 0) ≡ false = ground arith in rw (e, f) (omega arith)
]

-- Block `bn` of the inode is allocated, and to nothing else of the inode.
pub record IsOwn (s : Fs) (ip : Inode) (bn : ℕ) : Type 0 where
  pub mapped : IsMapped s ip bn
  pub alone : (k : ℕ) → k < maxfile → k ≢ bn → block_of s.block ip bn ≢ block_of s.block ip k
  pub not_indirect : block_of s.block ip bn ≢ indirect_of ip

-- The copy in succeeds from every address.
abbrev pub Fetches : Copyin → Bool → Type 0
Fetches copyin user =
    (src n a : ℕ) (m to : Bytes)
    → either_copyin copyin user src n m to a ≡ (true, moved a m src n to)

-- What the loop of `writei` leaves, from `off` on with `r` bytes to write.
pub record Wrote (s last : Fs) (ip : Inode) (m : Bytes) (src off r : ℕ) : Type 0 where
  pub same_sb : last.sb ≡ s.sb
  pub same_held : last.held ≡ s.held
  pub lists : (k : ℕ) → block_of last.block ip k ≡ block_of s.block ip k
  pub bytes :
      (o : ℕ)
      → o / bsize < maxfile
      → file_byte last.block ip o ≡ delivered m src r off (file_byte s.block ip) o
  pub others :
      (b : ℕ) → ((k : ℕ) → k < maxfile → block_of s.block ip k ≢ b) → last.block b ≡ s.block b

-- The state after a round that writes `c` bytes to block `b`.
abbrev round_end : Fs → ℕ → Bytes → ℕ → ℕ → ℕ → Fs
round_end s b m src off c = record s {
  block = update s.block b (moved (off % bsize) m src c (s.block b));
  logged = absorbed b s.logged;
}

-- A block that does not list blocks leaves the lists as they are.
pub block_of-update :
    (block : ℕ → ℕ → ℕ) (ip : Inode) (b : ℕ) (v : ℕ → ℕ) (k : ℕ)
    → b ≢ indirect_of ip
    → block_of (update block b v) ip k ≡ block_of block ip k
block_of-update block ip b v k ne = rw (==_ne b (indirect_of ip) ne) refl

-- A write within one block, by the offset in the block and by the offset in the file.
moved_in_block :
    (v g m : Bytes) (src off o c : ℕ)
    → o / bsize ≡ off / bsize
    → c ≤ bsize - off % bsize
    → v (o % bsize) ≡ g o
    → moved (off % bsize) m src c v (o % bsize) ≡ moved off m src c g o
moved_in_block v g m src off o c same le e = elim (dec_lt o off) [
  | yes before ↦ let h : o % bsize < off % bsize = omega arith in ground arith
  | no reached ↦ elim (dec_lt o (off + c)) [
    | yes inside ↦
        let h : off % bsize ≤ o % bsize = omega arith in
        let u : o % bsize < off % bsize + c = omega arith in
        let d : o % bsize - off % bsize ≡ o - off = omega arith in rw d (ground arith)
    | no after ↦ let h : off % bsize + c ≤ o % bsize = omega arith in ground arith
  ]
]

moved_outside_block :
    (g m : Bytes) (src off o c : ℕ)
    → o / bsize ≢ off / bsize
    → c ≤ bsize - off % bsize
    → moved off m src c g o ≡ g o
moved_outside_block g m src off o c other le = elim (dec_lt o off) [
  | yes before ↦ ground arith
  | no reached ↦ elim (dec_lt o (off + c)) [
    | yes inside ↦ absurd (other (omega arith))
    | no after ↦ ground arith
  ]
]

module _ (s : Fs) (ip : Inode) (m : Bytes) (src off r : ℕ) (own : IsOwn s ip (off / bsize)) where
  round_byte :
      (o : ℕ)
      → o / bsize < maxfile
      → file_byte
          (round_end s (block_of s.block ip (off / bsize)) m src off (chunk r off)).block
          ip
          o
        ≡ moved off m src (chunk r off) (file_byte s.block ip) o
  round_byte o l =
      let b = block_of s.block ip (off / bsize) in
      let v = moved (off % bsize) m src (chunk r off) (s.block b) in
      let k = block_of-update s.block ip b v (o / bsize) own.not_indirect in
      elim (ℕ_discrete (o / bsize) (off / bsize)) [
        | yes same ↦
            let here : block_of s.block ip (o / bsize) ≡ b = ap (block_of s.block ip) same in
            rw (k, here, ==_refl b)
              (moved_in_block (s.block b) (λ z. s.block b (z % bsize)) m src off o (chunk r off)
                same (omega arith) refl)
        | no other ↦
            let ne = own.alone (o / bsize) l other in
            rw (k, ==_ne b (block_of s.block ip (o / bsize)) ne)
              (sym (
                moved_outside_block (file_byte s.block ip) m src off o (chunk r off) other
                  (omega arith)))
      ]

  round_lists :
      (k : ℕ)
      → block_of
          (round_end s (block_of s.block ip (off / bsize)) m src off (chunk r off)).block
          ip
          k
        ≡ block_of s.block ip k
  round_lists k =
      let b = block_of s.block ip (off / bsize) in
      block_of-update s.block ip b (moved (off % bsize) m src (chunk r off) (s.block b)) k
        own.not_indirect

  -- The other blocks of the inode are its own after a round too.
  round-IsOwn :
      (bn : ℕ)
      → IsOwn s ip bn
      → IsOwn (round_end s (block_of s.block ip (off / bsize)) m src off (chunk r off)) ip bn
  round-IsOwn bn h = record {
    mapped = record {
      below = h.mapped.below;
      allocated = rw (round_lists bn) h.mapped.allocated;
      free = rw (round_lists bn) h.mapped.free;
      indirect_allocated = h.mapped.indirect_allocated;
      indirect_free = h.mapped.indirect_free;
    };
    alone = λ k l ne. rw (round_lists bn, round_lists k) (h.alone k l ne);
    not_indirect = rw (round_lists bn) h.not_indirect;
  }

-- Bytes delivered over equal bytes.
delivered_at :
    (f g h : Bytes) (src r off o : ℕ)
    → g o ≡ h o
    → delivered f src r off g o ≡ delivered f src r off h o
delivered_at f g h src r off o e = rw e refl

-- A round, and then the rest of the loop.
Wrote-round :
    (s last : Fs) (ip : Inode) (m : Bytes) (src off r : ℕ)
    → IsOwn s ip (off / bsize)
    → let c = chunk r off in
      Wrote
        (round_end s (block_of s.block ip (off / bsize)) m src off c)
        last
        ip
        m
        (src + c)
        (off + c)
        (r - c)
      → Wrote s last ip m src off r
Wrote-round s last ip m src off r own h = record {
  same_sb = h.same_sb;
  same_held = h.same_held;
  lists = λ k. h.lists k ∙ round_lists s ip m src off r own k;
  bytes = λ o l.
      h.bytes o l
      ∙ delivered_at m
          (file_byte (round_end s (block_of s.block ip (off / bsize)) m src off (chunk r off)).block
            ip)
          (moved off m src (chunk r off) (file_byte s.block ip)) (src + chunk r off)
          (r - chunk r off) (off + chunk r off) o (round_byte s ip m src off r own o l)
      ∙ ap (λ f. f o)
          (delivered-moved m src r off (chunk r off) src m (file_byte s.block ip) (omega arith)
            (λ j u. refl));
  others = λ b apart.
      let ne = apart (off / bsize) own.mapped.below in
      h.others b (λ k l e. apart k l (sym (round_lists s ip m src off r own k) ∙ e))
      ∙ rw (==_ne (block_of s.block ip (off / bsize)) b ne) refl;
}

loop_over : (s : Fs) (ip : Inode) (m : Bytes) (src off r : ℕ) → r ≡ 0 → Wrote s s ip m src off r
loop_over s ip m src off r e = record {
  same_sb = refl;
  same_held = refl;
  lists = λ k. refl;
  bytes = λ o l. ap (λ f. f o) (sym (delivered_none m src r off (file_byte s.block ip) e));
  others = λ b apart. refl;
}

-- Where the loop ends.
pub record Rounds (copyin : Copyin) (user : Bool) (s : Fs) (ip : Inode) (m : Bytes)
    (k tot n off src : ℕ) : Type 0 where
  pub last : Fs
  pub runs : write_rounds k copyin user m tot n off src (ip, s) ≡ ok (n, off + (n - tot), ip, last)
  pub wrote : Wrote s last ip m src off (n - tot)
  pub room : HasRoom 1 last

module _ (copyin : Copyin) (user : Bool) (fetches : Fetches copyin user) (ip : Inode)
    (m : Bytes) where
  pub write_rounds-Rounds :
      (k : ℕ) (s : Fs) (tot n off src : ℕ)
      → tot ≤ n
      → n - tot ≤ bsize * k - off % bsize
      → ((o : ℕ) → off ≤ o → o < off + (n - tot) → IsOwn s ip (o / bsize))
      → HasRoom (spanned (n - tot) off + 1) s
      → Rounds copyin user s ip m k tot n off src
  unfolding write_rounds log_write
  write_rounds-Rounds zero s tot n off src le fuel own room =
      let e : tot ≡ n = omega arith in
      let f : off + (n - tot) ≡ off = omega arith in
      record {
        last = s;
        runs = rw (f, e) refl;
        wrote = loop_over s ip m src off (n - tot) (omega arith);
        room = (room.0, omega (arith, room.1));
      }
  write_rounds-Rounds (suc k) s tot n off src le fuel own room = elim (dec_lt tot n) [
    | no done ↦
        let e : tot ≡ n = omega arith in
        let f : off + (n - tot) ≡ off = omega arith in
        record {
          last = s;
          runs = rw (le→ltb-false tot n (omega arith), f, e) refl;
          wrote = loop_over s ip m src off (n - tot) (omega arith);
          room = (room.0, omega (arith, room.1));
        }
    | yes more ↦
        let c = chunk (n - tot) off in
        let b = block_of s.block ip (off / bsize) in
        let here = own off (omega arith) (omega arith) in
        let s1 = round_end s b m src off c in
        let t = record s { held = b ∷ s.held } in
        let t1 = record s1 { held = b ∷ s.held } in
        let now : HasRoom (suc (spanned (n - tot - c) (off + c) + 1)) s =
          subst (λ k. HasRoom k s) (spanned_next (n - tot) off (omega arith)) room in
        let less : n - (tot + c) ≡ n - tot - c = omega arith in
        let ih =
          write_rounds-Rounds k s1 (tot + c) n (off + c) (src + c) (omega arith)
            (fuel_left k (n - tot) off n tot fuel more)
            (λ o l u.
              round-IsOwn s ip m src off (n - tot) here (o / bsize)
                (own o (omega arith) (omega arith)))
            (subst (λ r. HasRoom (spanned r (off + c) + 1) s1) (sym less)
              (room_left b (spanned (n - tot - c) (off + c) + 1) s now)) in
        let end : off + c + (n - (tot + c)) ≡ off + (n - tot) = omega arith in
        record {
          last = ih.last;
          runs =
              rw
                (
                  lt→ltb tot n more,
                  bmap-IsMapped s ip (off / bsize) here.mapped,
                  ==_ne b 0 here.mapped.allocated,
                  bread_free b s here.mapped.free,
                  fetches src c (off % bsize) m (s.block b),
                  has_room (spanned (n - tot - c) (off + c) + 1) s now,
                  has_begun (spanned (n - tot) off + 1) s room,
                  brelse_held b t1 s.held refl,
                )
                (ih.runs ∙ ap (λ z. ok (n, z, ip, ih.last)) end);
          wrote =
              Wrote-round s ih.last ip m src off (n - tot) here
                (subst (λ r. Wrote s1 ih.last ip m (src + c) (off + c) r) less ih.wrote);
          room = ih.room;
        }
  ]
