-- ===== src/Log/Clear.antt =====
-- The end that `recover_from_log` and `commit` of kernel/log.c share: the logged blocks are installed,
-- and a header with no blocks is written.
use os_project_cs.Prelude.{
  ℕ, ◌+◌, ◌-◌, ◌≤◌, ◌<◌, ◌≡◌, update, arith, ◌∙◌, sym, dec_lt, ap, fun_ext, ==_ne,
}
use os_project_cs.Log.{Block, Cache, LogHeader}
use os_project_cs.Log.Replay.{durable, IsHome}
use os_project_cs.Log.Steps.{write_disk_off, write_disk_on, Headed}
use os_project_cs.Log.Durable.{IsReplayable, apart, IsReplayable-log, durable_empty}

-- What a recovery leaves, and what it has done if the power lasts for its writes.
pub record Recovered (start size : ℕ) (c c' : Cache) : Type 0 where
  pub replayable : IsReplayable start size c'.disk
  pub same : (b : ℕ) → IsHome start size b → durable start c'.disk b ≡ durable start c.disk b
  pub finished :
      c.disk start 0 < c.power
      → (b : ℕ) → IsHome start size b
      → (c'.disk b ≡ durable start c.disk b) × (c'.buf b ≡ c'.disk b)
  pub emptied : c.disk start 0 < c.power → c'.disk start 0 ≡ 0
  pub power : c'.power ≡ c.power - c.disk start 0 - 1

module _ (start size : ℕ) (c : Cache) where
  abbrev logged : ℕ
  logged = c.disk start 0

  -- After the loop, in terms of the disk before it.
  pub record Copied (c1 : Cache) : Type 0 where
    pub log : (j : ℕ) → j < size → c1.disk (start + j) ≡ c.disk (start + j)
    pub same : (b : ℕ) → durable start c1.disk b ≡ durable start c.disk b
    pub full : logged ≤ c.power → (b : ℕ) → c1.disk b ≡ durable start c.disk b
    pub buf : (b : ℕ) → IsHome start size b → c1.buf b ≡ durable start c.disk b
    pub power : c1.power ≡ c.power - logged

  -- The header that empties the log reaches the disk.
  cleared :
      (c1 c2 : Cache) (lh : LogHeader)
      → IsReplayable start size c.disk
      → Copied c1
      → Headed start lh c1 c2
      → lh.n ≡ 0
      → 0 < c1.power
      → Recovered start size c c2
  cleared c1 c2 lh r k h none_left on =
      let p = k.power in
      let q = h.power in
      let f = r.fits in
      let disk : (b : ℕ) → c2.disk b ≡ update c1.disk start h.header b =
        λ b. h.disk b ∙ write_disk_on c1.power c1.disk start h.header b on in
      let empty : c2.disk start 0 ≡ 0 = ground (arith, disk start, h.count, none_left) in
      let value : (b : ℕ) → IsHome start size b → c2.disk b ≡ durable start c.disk b = λ b home.
        disk b ∙ rw (==_ne start b (apart start size b f home)) (k.full (omega arith) b) in
      record {
        replayable = record { fits = omega arith; homes = λ i u. absurd (omega arith) };
        same = λ b home. durable_empty start c2.disk b empty ∙ value b home;
        finished = λ w b home. (
          value b home,
          h.buf b
              ∙ rw (==_ne start b (apart start size b f home)) (k.buf b home)
              ∙ sym (value b home),
        );
        emptied = λ w. empty;
        power = omega arith;
      }

  -- The machine stops before that.
  stopped :
      (c1 c2 : Cache) (lh : LogHeader)
      → IsReplayable start size c.disk
      → Copied c1
      → Headed start lh c1 c2
      → lh.n ≡ 0
      → c1.power ≡ 0
      → Recovered start size c c2
  stopped c1 c2 lh r k h none_left off =
      let p = k.power in
      let q = h.power in
      let disk : c2.disk ≡ c1.disk =
        fun_ext λ b. h.disk b ∙ write_disk_off c1.power c1.disk start h.header b off in
      record {
        replayable = rw disk (IsReplayable-log start size c.disk c1.disk r k.log);
        same = λ b home. ap (λ (d : ℕ → Block). durable start d b) disk ∙ k.same b;
        finished = λ w. absurd (omega arith);
        emptied = λ w. absurd (omega arith);
        power = omega arith;
      }

  pub Copied-Recovered :
      (c1 c2 : Cache) (lh : LogHeader)
      → IsReplayable start size c.disk
      → Copied c1
      → Headed start lh c1 c2
      → lh.n ≡ 0
      → Recovered start size c c2
  Copied-Recovered c1 c2 lh r k h none_left = elim (dec_lt 0 c1.power) [
    | yes on ↦ cleared c1 c2 lh r k h none_left on
    | no off ↦ stopped c1 c2 lh r k h none_left (omega arith)
  ]
