-- ===== src/Log/Steps.antt =====
-- What the loops of kernel/log.c do to the cache and to the disk, wherever the machine stops.
use os_project_cs.Prelude.{
  ℕ, zero, suc, ◌+◌, ◌-◌, ◌≤◌, ◌<◌, ◌≡◌, ◌⊎◌, inl, inr, refl, Bool, true, false, ◌&&◌, ltb, leb,
  ◌==◌, if◌then◌else◌, update, arith, dec_lt, ◌∙◌,
}
use os_project_cs.Log.{
  Block, Cache, LogHeader, bwrite, set_data, write_disk, bunpin, install_trans, read_blocks,
  write_blocks, write_head, write_log,
}
use os_project_cs.Log.Replay.{replay, hits, replay-here}

-- Outside the `k` log blocks from round `t`.
abbrev pub OutsideLog : ℕ → ℕ → ℕ → ℕ → Type 0
OutsideLog start t k b = (b ≤ start + t) ⊎ (start + t + k < b)

module _ (start : ℕ) (lh : LogHeader) where
  pub record Logged (k t : ℕ) (c c' : Cache) : Type 0 where
    pub buf : (b : ℕ) → OutsideLog start t k b → c'.buf b ≡ c.buf b
    pub disk : (b : ℕ) → OutsideLog start t k b → c'.disk b ≡ c.disk b
    pub power : c'.power ≡ c.power - k
    pub copied : (i : ℕ) → t ≤ i → i < t + k → c'.buf (start + i + 1) ≡ c.buf (lh.block i)
    pub written :
        k ≤ c.power → (i : ℕ) → t ≤ i → i < t + k → c'.disk (start + i + 1) ≡ c.buf (lh.block i)

  -- One round of `write_log`.
  write_one : ℕ → Cache → Cache
  write_one t c = bwrite (start + t + 1) (set_data (start + t + 1) (c.buf (lh.block t)) c)

  write_one-Logged : (t : ℕ) (c : Cache) → Logged 1 t c (write_one t c)
  unfolding write_one bwrite
  write_one-Logged t c = record {
    buf = λ b o. ground arith;
    disk = λ b o. ground arith;
    power = refl;
    copied = λ i l u. let e : i ≡ t = omega arith in rw e (ground arith);
    written = λ p i l u. let e : i ≡ t = omega arith in rw e (ground arith);
  }

  pub write_log-Logged :
      (k t : ℕ) (c : Cache)
      → ((i : ℕ) → t ≤ i → i < t + k → OutsideLog start t k (lh.block i))
      → Logged k t c (write_log start lh k t c)
  unfolding write_log write_one
  write_log-Logged zero t c homes = record {
    buf = λ b o. refl;
    disk = λ b o. refl;
    power = omega arith;
    copied = λ i l u. absurd (omega arith);
    written = λ p i l u. absurd (omega arith);
  }
  write_log-Logged (suc k) t c homes =
      let one = write_one-Logged t c in
      let rest = write_log-Logged k (t + 1) (write_one t c) (λ i l u. ground (arith, homes i)) in
      record {
        buf = λ b o. rest.buf b (ground arith) ∙ one.buf b (ground arith);
        disk = λ b o. rest.disk b (ground arith) ∙ one.disk b (ground arith);
        power = omega (arith, rest.power, one.power);
        copied = λ i l u. elim (dec_lt t i) [
          | yes later ↦
              rest.copied i (omega arith) (omega arith)
              ∙ one.buf (lh.block i) (ground (arith, homes i))
          | no here ↦
              rest.buf (start + i + 1) (inl (omega arith))
              ∙ one.copied i (omega arith) (omega arith)
        ];
        written = λ p i l u. elim (dec_lt t i) [
          | yes later ↦
              rest.written (omega (arith, one.power)) i (omega arith) (omega arith)
              ∙ one.buf (lh.block i) (ground (arith, homes i))
          | no here ↦
              rest.disk (start + i + 1) (inl (omega arith))
              ∙ one.written (omega arith) i (omega arith) (omega arith)
        ];
      }

write_disk_ne :
    (p : ℕ) (d : ℕ → Block) (b : ℕ) (v : Block) (j : ℕ)
    → (b == j) ≡ false
    → write_disk p d b v j ≡ d j
write_disk_ne zero d b v j h = refl
write_disk_ne (suc p) d b v j h = rw h

pub write_disk_off :
    (p : ℕ) (d : ℕ → Block) (b : ℕ) (v : Block) (j : ℕ) → p ≡ 0 → write_disk p d b v j ≡ d j
write_disk_off zero d b v j h = refl
write_disk_off (suc p) d b v j h = absurd (omega arith)

pub write_disk_on :
    (p : ℕ) (d : ℕ → Block) (b : ℕ) (v : Block) (j : ℕ)
    → 0 < p
    → write_disk p d b v j ≡ update d b v j
write_disk_on zero d b v j h = absurd (omega arith)
write_disk_on (suc p) d b v j h = refl

-- The header block after the assignments of `write_head`.
pub write_blocks_lem :
    (k i : ℕ) (block : ℕ → ℕ) (hb : Block) (j : ℕ)
    → write_blocks k i block hb j ≡ (if ltb i j && leb j (i + k) then block (j - 1) else hb j)
unfolding write_blocks
write_blocks_lem zero i block hb j = ground arith
write_blocks_lem (suc k) i block hb j =
    ground (arith, write_blocks_lem k (i + 1) block (update hb (i + 1) (block i)) j)

pub read_blocks_lem :
    (k i : ℕ) (hb : Block) (block : ℕ → ℕ) (j : ℕ)
    → read_blocks k i hb block j ≡ (if leb i j && ltb j (i + k) then hb (j + 1) else block j)
unfolding read_blocks
read_blocks_lem zero i hb block j = ground arith
read_blocks_lem (suc k) i hb block j =
    ground (arith, read_blocks_lem k (i + 1) hb (update block i (hb (i + 1))) j)

module _ (start : ℕ) (lh : LogHeader) where
  -- The header block is written whole: the count, and the numbers of the logged blocks.
  pub record Headed (c c' : Cache) : Type 0 where
    pub header : Block
    pub count : header 0 ≡ lh.n
    pub blocks : (i : ℕ) → i < lh.n → header (i + 1) ≡ lh.block i
    pub buf : (b : ℕ) → c'.buf b ≡ (if start == b then header else c.buf b)
    pub disk : (b : ℕ) → c'.disk b ≡ write_disk c.power c.disk start header b
    pub power : c'.power ≡ c.power - 1

  pub write_head-Headed : (c : Cache) → Headed c (write_head start lh c)
  unfolding write_head
  write_head-Headed c =
      let hb : Block = update (c.buf start) 0 lh.n in
      record {
        header = write_blocks lh.n 0 lh.block hb;
        count = ground (arith, write_blocks_lem lh.n 0 lh.block hb 0);
        blocks = λ i u. count i u (write_blocks_lem lh.n 0 lh.block hb (i + 1));
        buf = λ b. refl;
        disk = λ b. disk_at c.power b;
        power = refl;
      }
    where
      count :
          (i : ℕ)
          → i < lh.n
          → write_blocks lh.n 0 lh.block (update (c.buf start) 0 lh.n) (i + 1) ≡ (
              if ltb 0 (i + 1) && leb (i + 1) (0 + lh.n)
              then lh.block (i + 1 - 1)
              else update (c.buf start) 0 lh.n (i + 1))
          → write_blocks lh.n 0 lh.block (update (c.buf start) 0 lh.n) (i + 1) ≡ lh.block i
      count i u e = e ∙ ground arith

      disk_at :
          (p b : ℕ)
          → write_disk p c.disk start
              (update c.buf start
                (write_blocks lh.n 0 lh.block (update (c.buf start) 0 lh.n))
                start)
              b
            ≡ write_disk p c.disk start
                (write_blocks lh.n 0 lh.block (update (c.buf start) 0 lh.n))
                b
      disk_at p b = ground arith

  pub record Installed (content : ℕ → Block) (k t : ℕ) (c c' : Cache) : Type 0 where
    pub buf : (b : ℕ) → c'.buf b ≡ replay lh.block content k t c.buf b
    pub power : c'.power ≡ c.power - k
    pub partial : (b : ℕ) → (hits lh.block k t b ≡ true) ⊎ (c'.disk b ≡ c.disk b)
    pub stopped : c.power ≡ 0 → (b : ℕ) → c'.disk b ≡ c.disk b
    pub full : k ≤ c.power → (b : ℕ) → c'.disk b ≡ replay lh.block content k t c.disk b

  -- One round of `install_trans`.
  install_one : Bool → ℕ → Cache → Cache
  install_one r t c =
      let dst = lh.block t in
      let written = bwrite dst (set_data dst (c.buf (start + t + 1)) c) in
      if r then written else bunpin dst written

  record Placed (t : ℕ) (v : Block) (c c' : Cache) : Type 0 where
    buf : (b : ℕ) → c'.buf b ≡ update c.buf (lh.block t) v b
    disk : (b : ℕ) → c'.disk b ≡ write_disk c.power c.disk (lh.block t) v b
    power : c'.power ≡ c.power - 1

  install_one-Placed :
      (r : Bool) (t : ℕ) (c : Cache) → Placed t (c.buf (start + t + 1)) c (install_one r t c)
  unfolding install_one bwrite bunpin
  install_one-Placed true t c = record { buf = λ b. refl; disk = λ b. ground arith; power = refl }
  install_one-Placed false t c = record { buf = λ b. refl; disk = λ b. ground arith; power = refl }

  pub install_trans-Installed :
      (r : Bool) (content : ℕ → Block) (k t : ℕ) (c : Cache)
      → ((i : ℕ) → t ≤ i → i < t + k → OutsideLog start t k (lh.block i))
      → ((i : ℕ) → t ≤ i → i < t + k → c.buf (start + i + 1) ≡ content i)
      → Installed content k t c (install_trans r start lh k t c)
  unfolding install_trans install_one
  install_trans-Installed r content zero t c homes same = record {
    buf = λ b. refl;
    power = omega arith;
    partial = λ b. inr refl;
    stopped = λ p b. refl;
    full = λ p b. refl;
  }
  install_trans-Installed r content (suc k) t c homes same =
      let one = install_one-Placed r t c in
      let v : c.buf (start + t + 1) ≡ content t = same t (omega arith) (omega arith) in
      let rest =
        install_trans-Installed r content k (t + 1) (install_one r t c)
          (λ i l u. ground (arith, homes i))
          (λ i l u. one.buf (start + i + 1) ∙ ground (arith, homes t, same i)) in
      record {
        buf = λ b.
            rest.buf b ∙ replay-here lh.block content k (t + 1) _ _ b (one.buf b ∙ ground arith);
        power = omega (arith, rest.power, one.power);
        partial = λ b. ground (
          arith,
          rest.partial b,
          one.disk b,
          write_disk_ne c.power c.disk (lh.block t) (c.buf (start + t + 1)) b,
        );
        stopped = λ p b.
            rest.stopped (omega (arith, one.power)) b
            ∙ one.disk b
            ∙ write_disk_off c.power c.disk (lh.block t) (c.buf (start + t + 1)) b p;
        full = λ p b.
            rest.full (omega (arith, one.power)) b
            ∙ replay-here lh.block content k (t + 1) _ _ b (one.disk b ∙ ground arith);
      }
