-- ===== src/Fs/Inode/Dinode.antt =====
-- The 64 bytes of an inode on disk.
use os_project_cs.Prelude.{
  ℕ, zero, suc, ◌+◌, ◌*◌, ◌^◌, ◌<◌, ◌≤◌, ◌≡◌, ◌⊎◌, refl, ◌∙◌, sym, ap, List, [], ◌∷◌, arith, length,
  inl,
}
use os_project_cs.Fs.Inode.{
  Content, Bytes, ndirect, get_short, get_word, put_short, put_word, get_words, put_words,
  read_dinode, write_dinode,
}

pub put_short-outside :
    (v a : ℕ) (m : Bytes) (i : ℕ) → (i < a) ⊎ (a + 2 ≤ i) → put_short v a m i ≡ m i
unfolding put_short
put_short-outside v a m i out = ground arith

pub put_word-outside :
    (v a : ℕ) (m : Bytes) (i : ℕ) → (i < a) ⊎ (a + 4 ≤ i) → put_word v a m i ≡ m i
unfolding put_word put_short
put_word-outside v a m i out = ground arith

pub put_words-outside :
    (vs : List ℕ) (a : ℕ) (m : Bytes) (i : ℕ)
    → (i < a) ⊎ (a + 4 * length vs ≤ i)
    → put_words vs a m i ≡ m i
unfolding put_words
put_words-outside [] a m i out = refl
put_words-outside (v ∷ vs) a m i out =
    put_words-outside vs (a + 4) (put_word v a m) i (ground arith)
    ∙ put_word-outside v a m i (ground arith)

get_short-put_short : (v a : ℕ) (m : Bytes) → v < 2 ^ 16 → get_short (put_short v a m) a ≡ v
unfolding get_short put_short
get_short-put_short v a m small = ground arith

get_word-put_word : (v a : ℕ) (m : Bytes) → v < 2 ^ 32 → get_word (put_word v a m) a ≡ v
unfolding get_word put_word get_short put_short
get_word-put_word v a m small = ground arith

-- Reading depends only on the bytes read.
get_short-same :
    (m m' : Bytes) (a : ℕ) → m' a ≡ m a → m' (a + 1) ≡ m (a + 1) → get_short m' a ≡ get_short m a
unfolding get_short
get_short-same m m' a e f = ground arith

get_word-same :
    (m m' : Bytes) (a : ℕ) → ((i : ℕ) → i < a + 4 → m' i ≡ m i) → get_word m' a ≡ get_word m a
unfolding get_word get_short
get_word-same m m' a same = ground (
  arith,
  same a (omega arith),
  same (a + 1) (omega arith),
  same (a + 2) (omega arith),
  same (a + 2 + 1) (omega arith),
)

-- Words that fit.
abbrev pub Words : List ℕ → Type 0
Words [] = Unit
Words (v ∷ vs) = (v < 2 ^ 32) × Words vs

get_words-put_words :
    (vs : List ℕ) (a : ℕ) (m : Bytes) → Words vs → get_words (length vs) (put_words vs a m) a ≡ vs
unfolding get_words put_words
get_words-put_words [] a m h = refl
get_words-put_words (v ∷ vs) a m (small, h) =
    let m' : Bytes = put_word v a m in
    let first : get_word (put_words vs (a + 4) m') a ≡ v =
      get_word-same m' (put_words vs (a + 4) m') a
        (λ i l. put_words-outside vs (a + 4) m' i (inl l))
      ∙ get_word-put_word v a m small in
    let rest : get_words (length vs) (put_words vs (a + 4) m') (a + 4) ≡ vs =
      get_words-put_words vs (a + 4) m' h in
    rw (first, rest)

-- An inode whose fields fit their places on disk.
pub record Fits (c : Content) : Type 0 where
  pub type : c.type < 2 ^ 16
  pub major : c.major < 2 ^ 16
  pub minor : c.minor < 2 ^ 16
  pub nlink : c.nlink < 2 ^ 16
  pub size : c.size < 2 ^ 32
  pub words : Words c.addrs
  pub places : length c.addrs ≡ ndirect + 1

-- What `iupdate` writes, `ilock` reads.
pub read_dinode-write_dinode :
    (c : Content) (a : ℕ) (m : Bytes) → Fits c → read_dinode (write_dinode c a m) a ≡ c
unfolding read_dinode write_dinode
read_dinode-write_dinode c a m f =
    let m1 : Bytes = put_short c.type a m in
    let m2 : Bytes = put_short c.major (a + 2) m1 in
    let m3 : Bytes = put_short c.minor (a + 4) m2 in
    let m4 : Bytes = put_short c.nlink (a + 6) m3 in
    let m5 : Bytes = put_word c.size (a + 8) m4 in
    let m6 : Bytes = put_words c.addrs (a + 12) m5 in
    let s5 : (i : ℕ) → i < a + 12 → m6 i ≡ m5 i =
      λ i l. put_words-outside c.addrs (a + 12) m5 i (inl l) in
    let s4 : (i : ℕ) → i < a + 8 → m6 i ≡ m4 i =
      λ i l. s5 i (omega arith) ∙ put_word-outside c.size (a + 8) m4 i (inl l) in
    let s3 : (i : ℕ) → i < a + 6 → m6 i ≡ m3 i =
      λ i l. s4 i (omega arith) ∙ put_short-outside c.nlink (a + 6) m3 i (inl l) in
    let s2 : (i : ℕ) → i < a + 4 → m6 i ≡ m2 i =
      λ i l. s3 i (omega arith) ∙ put_short-outside c.minor (a + 4) m2 i (inl l) in
    let s1 : (i : ℕ) → i < a + 2 → m6 i ≡ m1 i =
      λ i l. s2 i (omega arith) ∙ put_short-outside c.major (a + 2) m1 i (inl l) in
    let type : get_short m6 a ≡ c.type =
      get_short-same m1 m6 a (s1 a (omega arith)) (s1 (a + 1) (omega arith))
      ∙ get_short-put_short c.type a m f.type in
    let major : get_short m6 (a + 2) ≡ c.major =
      get_short-same m2 m6 (a + 2) (s2 (a + 2) (omega arith)) (s2 (a + 2 + 1) (omega arith))
      ∙ get_short-put_short c.major (a + 2) m1 f.major in
    let minor : get_short m6 (a + 4) ≡ c.minor =
      get_short-same m3 m6 (a + 4) (s3 (a + 4) (omega arith)) (s3 (a + 4 + 1) (omega arith))
      ∙ get_short-put_short c.minor (a + 4) m2 f.minor in
    let nlink : get_short m6 (a + 6) ≡ c.nlink =
      get_short-same m4 m6 (a + 6) (s4 (a + 6) (omega arith)) (s4 (a + 6 + 1) (omega arith))
      ∙ get_short-put_short c.nlink (a + 6) m3 f.nlink in
    let size : get_word m6 (a + 8) ≡ c.size =
      get_word-same m5 m6 (a + 8) (λ i l. s5 i (omega arith))
      ∙ get_word-put_word c.size (a + 8) m4 f.size in
    let addrs : get_words (ndirect + 1) m6 (a + 12) ≡ c.addrs =
      ap (λ n. get_words n m6 (a + 12)) (sym f.places)
      ∙ get_words-put_words c.addrs (a + 12) m5 f.words in
    λ i. record {
      type = type i;
      major = major i;
      minor = minor i;
      nlink = nlink i;
      size = size i;
      addrs = addrs i;
    }

-- Nothing outside the inode's 64 bytes is written.
pub write_dinode-outside :
    (c : Content) (a : ℕ) (m : Bytes) (i : ℕ)
    → length c.addrs ≡ ndirect + 1
    → (i < a) ⊎ (a + 64 ≤ i)
    → write_dinode c a m i ≡ m i
unfolding write_dinode
write_dinode-outside c a m i places out = ground (
  arith,
  put_words-outside c.addrs (a + 12)
      (put_word c.size (a + 8) (
        put_short c.nlink (a + 6)
          (put_short c.minor (a + 4) (put_short c.major (a + 2) (put_short c.type a m)))))
      i,
  put_word-outside c.size (a + 8)
      (put_short c.nlink (a + 6)
        (put_short c.minor (a + 4) (put_short c.major (a + 2) (put_short c.type a m))))
      i,
  put_short-outside c.nlink (a + 6)
      (put_short c.minor (a + 4) (put_short c.major (a + 2) (put_short c.type a m))) i,
  put_short-outside c.minor (a + 4) (put_short c.major (a + 2) (put_short c.type a m)) i,
  put_short-outside c.major (a + 2) (put_short c.type a m) i,
  put_short-outside c.type a m i,
)

get_words-same :
    (n : ℕ) (m m' : Bytes) (a : ℕ)
    → ((i : ℕ) → a ≤ i → i < a + 4 * n → m' i ≡ m i)
    → get_words n m' a ≡ get_words n m a
unfolding get_words get_word get_short
get_words-same zero m m' a same = refl
get_words-same (suc n) m m' a same =
    let e : m' a ≡ m a = same a (omega arith) (omega arith) in
    let f : m' (a + 1) ≡ m (a + 1) = same (a + 1) (omega arith) (omega arith) in
    let g : m' (a + 2) ≡ m (a + 2) = same (a + 2) (omega arith) (omega arith) in
    let h : m' (a + 2 + 1) ≡ m (a + 2 + 1) = same (a + 2 + 1) (omega arith) (omega arith) in
    let rest = get_words-same n m m' (a + 4) (λ i l u. same i (omega arith) (omega arith)) in
    rw (e, f, g, h, rest)

-- An inode is read from its own 64 bytes.
pub read_dinode-same :
    (m m' : Bytes) (a : ℕ)
    → ((i : ℕ) → a ≤ i → i < a + 64 → m' i ≡ m i)
    → read_dinode m' a ≡ read_dinode m a
unfolding read_dinode get_short get_word
read_dinode-same m m' a same =
    let short : (k : ℕ) → k + 2 ≤ 64 → get_short m' (a + k) ≡ get_short m (a + k) = λ k l.
      get_short-same m m' (a + k) (same (a + k) (omega arith) (omega arith))
        (same (a + k + 1) (omega arith) (omega arith)) in
    let z : a + 0 ≡ a = omega arith in
    let type : get_short m' a ≡ get_short m a =
      get_short-same m m' a (same a (omega arith) (omega arith))
        (same (a + 1) (omega arith) (omega arith)) in
    let high : get_short m' (a + 8 + 2) ≡ get_short m (a + 8 + 2) =
      get_short-same m m' (a + 8 + 2) (same (a + 8 + 2) (omega arith) (omega arith))
        (same (a + 8 + 2 + 1) (omega arith) (omega arith)) in
    let words =
      get_words-same (ndirect + 1) m m' (a + 12) (λ i l u. same i (omega arith) (omega arith)) in
    λ i. record {
      type = type i;
      major = short 2 (omega arith) i;
      minor = short 4 (omega arith) i;
      nlink = short 6 (omega arith) i;
      size = short 8 (omega arith) i + 65536 * high i;
      addrs = words i;
    }
