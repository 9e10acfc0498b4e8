-- ===== src/Console/Lines.antt =====
-- The input of the console of kernel/console.c as two texts: what readers may take, and the line that
-- is still being edited.
use os_project_cs.Prelude.{
  ℕ, ◌+◌, ◌%◌, ◌^◌, ◌<◌, ◌≤◌, ◌≡◌, ◌≢◌, refl, ap, ◌||◌, List, [], ◌∷◌, ◌++◌, some, ◌==◌,
  if◌then◌else◌, update, get_elem?, length, arith, ==_ne, ==_refl, get_elem?-append_cases, inl, inr,
}
use os_project_cs.Console.{
  Console, input_buf_size, newline, carriage_return, control_d, control_h, control_p, control_u,
  delete,
}

pub record Lines : Type 0 where
  pub ready : List ℕ
  pub edit : List ℕ

abbrev pub all : Lines → List ℕ
all l = l.ready ++ l.edit

-- A text without its last byte.
abbrev pub init : List ℕ → List ℕ
init [] = []
init (x ∷ []) = []
init (x ∷ y ∷ xs) = x ∷ init (y ∷ xs)

-- A byte that is no command joins the line; the end of a line, or of the room, makes it ready.
abbrev pub joined : ℕ → Lines → Lines
joined c l =
    if ((c == newline) || (c == control_d)) || (length (all l) + 1 == input_buf_size)
    then record { ready = l.ready ++ (l.edit ++ (c ∷ [])); edit = [] }
    else record { ready = l.ready; edit = l.edit ++ (c ∷ []) }

-- What a byte typed does.
abbrev pub typed : ℕ → Lines → Lines
typed c l =
    if c == control_p
    then l
    else if c == control_u
    then record l { edit = [] }
    else if (c == control_h) || (c == delete)
    then record l { edit = init l.edit }
    else if (c == 0) || (length (all l) == input_buf_size)
    then l
    else joined (if c == carriage_return then newline else c) l

-- The buffer holds the text from counter `r` on.
abbrev pub Holds : (ℕ → ℕ) → ℕ → List ℕ → Type 0
Holds buf r q = (j x : ℕ) → get_elem? q j ≡ some x → buf ((r + j) % input_buf_size) ≡ x

abbrev pub HasNoNewline : List ℕ → Type 0
HasNoNewline q = (j x : ℕ) → get_elem? q j ≡ some x → x ≢ newline

pub record Input (s : Console) (l : Lines) : Type 0 where
  pub small : s.r < 2 ^ 32
  pub bounded : length l.ready + length l.edit ≤ input_buf_size
  pub written : s.w ≡ (s.r + length l.ready) % 2 ^ 32
  pub edited : s.e ≡ (s.r + (length l.ready + length l.edit)) % 2 ^ 32
  pub holds : Holds s.buf s.r (all l)
  pub one_line : HasNoNewline l.edit

pub init-append : (xs : List ℕ) (x : ℕ) → init (xs ++ (x ∷ [])) ≡ xs
init-append [] x = refl
init-append (y ∷ []) x = refl
init-append (y ∷ z ∷ xs) x = ap (λ l. y ∷ l) (init-append (z ∷ xs) x)

-- A byte written just past the text is added to it.
pub Holds-append :
    (buf : ℕ → ℕ) (r e c : ℕ) (q : List ℕ)
    → e ≡ (r + length q) % 2 ^ 32
    → length q < input_buf_size
    → Holds buf r q
    → Holds (update buf (e % input_buf_size) c) r (q ++ (c ∷ []))
Holds-append buf r e c q at room h j x l = elim (get_elem?-append_cases q c j x l) [
  | inl (below, old) ↦
      let ne : e % input_buf_size ≢ (r + j) % input_buf_size = λ f. omega arith in
      rw (==_ne (e % input_buf_size) ((r + j) % input_buf_size) ne) (h j x old)
  | inr (here, new) ↦
      let eq : e % input_buf_size ≡ (r + j) % input_buf_size = omega arith in
      rw (eq, ==_refl ((r + j) % input_buf_size), new) refl
]
