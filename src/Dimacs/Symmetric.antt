-- ===== src/Dimacs/Symmetric.antt =====
-- The matrix of `parse_extended_DIMACS_main` of core/Dimacs.h: an edge keeps it symmetric.
use phd_thesis_src.Prelude.{
  ℕ, ◌+◌, ◌*◌, ◌==◌, ◌<◌, ◌≤◌, ◌≡◌, ◌≢◌, inl, inr, refl, sym, ap, ◌∙◌, true, ltb, Bool, ◌∷◌, Option,
  none, some, Error, subst, Result, ok, err, out_of_fuel, ◌>>=◌, Bool-cases, arith, length,
  length-set, if◌then◌else◌, ◌&&◌, ◌||◌,
}
use phd_thesis_src.Text.{Bytes}
use phd_thesis_src.Sat.{Lit, Sat}
use phd_thesis_src.Matrix.{Matrix, entry, set}
use phd_thesis_src.Matrix.Cells.{IsFull}
use phd_thesis_src.Matrix.Permute.{IsSquare}
use phd_thesis_src.Matrix.Writes.{Written, set-Written}
use phd_thesis_src.Dimacs.{Parser}

-- A result that is not for want of fuel, and satisfies `P` where there is a value.
abbrev pub Fine : {A : Type 0} → (A → Type 0) → Result A → Type 0
Fine P (err e) = e ≢ out_of_fuel
Fine P (ok a) = P a

pub bind-Fine :
    {A B : Type 0} (P : A → Type 0) (Q : B → Type 0) (r : Result A) (f : A → Result B)
    → Fine P r
    → ((a : A) → P a → Fine Q (f a))
    → Fine Q (r >>= f)
bind-Fine P Q (err e) f h g = h
bind-Fine P Q (ok a) f h g = g a h

-- What is documented of the functions: they read on from where the stream stands, and beyond the
-- first character where they need one.
pub record IsParser (p : Parser) : Type 0 where
  pub skips : (s : Bytes) → length (p.skip_whitespace s) ≤ length s
  pub lines : (c : ℕ) (cs : Bytes) → length (p.skip_line (c ∷ cs)) ≤ length cs
  pub ints : (s : Bytes) → Fine (λ r. length r.1 ≤ length s) (p.parse_int s)
  pub matches :
      (w : Bytes) (c : ℕ) (cs : Bytes)
      → 0 < length w
      → Fine (λ r. length r ≤ length cs) (p.eager_match w (c ∷ cs))
  pub reads :
      (c : ℕ) (cs : Bytes) (s : Sat) → Fine (λ r. length r.1 ≤ length cs) (p.read_clause (c ∷ cs) s)

-- A square matrix whose values at (a, b) and at (b, a) are the same.
pub record IsSymmetric (m : Matrix Lit) : Type 0 where
  pub square : IsSquare m
  pub mirror : (a b : ℕ) → a < m.n_rows → b < m.n_rows → entry m a b ≡ entry m b a

abbrev pub AreSymmetric : Option (Matrix Lit) → Type 0
AreSymmetric none = Unit {0}
AreSymmetric (some m) = IsSymmetric m

row_of : (n i j : ℕ) → i * n + j < n * n → i < n
row_of n i j h = grind arith

pub no_fuel : Error.undefined_access ≢ out_of_fuel
no_fuel e = cc e

-- What is known of a write that succeeds.
pub record Wrote (m : Matrix Lit) (i j : ℕ) (l : Lit) (m' : Matrix Lit) : Type 0 where
  run : set m i j l ≡ ok m'
  inside : i * m.n_cols + j < length m.elements
  rows : m'.n_rows ≡ m.n_rows
  cols : m'.n_cols ≡ m.n_cols
  size : length m'.elements ≡ length m.elements

pub set-Fine : (m : Matrix Lit) (i j : ℕ) (l : Lit) → Fine (Wrote m i j l) (set m i j l)
unfolding set
set-Fine m i j l =
    let k = i * m.n_cols + j in
    elim (Bool-cases (ltb k (length m.elements))) [
      | inl e ↦ rw e (record {
        run = rw e refl;
        inside = ground arith;
        rows = refl;
        cols = refl;
        size = length-set m.elements k l;
      })
      | inr e ↦ rw e no_fuel
    ]

Wrote-Written :
    (m : Matrix Lit) (i j : ℕ) (l : Lit) (m' : Matrix Lit)
    → IsFull m
    → i < m.n_rows
    → j < m.n_cols
    → Wrote m i j l m'
    → Written m i j l m'
Wrote-Written m i j l m' full p q w =
    let (m'', run, written) = set-Written m i j l full p q in
    let same : m'' ≡ m' = cc (run, w.run) in subst (Written m i j l) same written

-- Both writes of an edge succeed for numbers of vertices only.
module _ (m m₁ m₂ : Matrix Lit) (i j : ℕ) (l : Lit) (h : IsSymmetric m) (w₁ : Wrote m i j l m₁)
    (w₂ : Wrote m₁ j i l m₂) where
  size : length m.elements ≡ m.n_rows * m.n_rows
  size = h.square.1 ∙ ap (λ c. m.n_rows * c) (sym h.square.0)

  row : i < m.n_rows
  row =
      let inside = subst (λ c. i * c + j < length m.elements) (sym h.square.0) w₁.inside in
      row_of m.n_rows i j (omega (arith, inside, size))

  column : j < m.n_rows
  column =
      let inside =
        subst (λ c. j * c + i < length m₁.elements) (w₁.cols ∙ sym h.square.0) w₂.inside in
      row_of m.n_rows j i (omega (arith, inside, size, w₁.size))

  first : Written m i j l m₁
  first = Wrote-Written m i j l m₁ h.square.1 row (omega (arith, column, h.square.0)) w₁

  second : Written m₁ j i l m₂
  second =
      Wrote-Written m₁ j i l m₂ first.full (omega (arith, column, w₁.rows))
        (omega (arith, row, w₁.cols, h.square.0)) w₂

  -- The cell (a, b) is one of the two that are written.
  abbrev hit : ℕ → ℕ → Bool
  hit a b = ((a == i) && (b == j)) || ((a == j) && (b == i))

  value :
      (a b : ℕ)
      → a < m.n_rows
      → b < m.n_rows
      → entry m₂ a b ≡ (if hit a b then some l else entry m a b)
  value a b p q = elim (Bool-cases ((a == j) && (b == i))) [
    | inl e ↦
        let ea : j ≡ a = ground arith in
        let eb : i ≡ b = ground arith in
        let here : entry m₂ a b ≡ some l =
          subst (λ c. entry m₂ c b ≡ some l) ea
            (subst (λ d. entry m₂ j d ≡ some l) eb second.here) in
        ground (arith, here, e)
    | inr e ↦
        let same : entry m₂ a b ≡ entry m₁ a b =
          second.elsewhere a b (omega (arith, q, w₁.cols, h.square.0))
            (λ ea eb. let t : ((a == j) && (b == i)) ≡ true = ground arith in absurd (cc (t, e))) in
        elim (Bool-cases ((a == i) && (b == j))) [
          | inl e' ↦
              let ea : i ≡ a = ground arith in
              let eb : j ≡ b = ground arith in
              let here : entry m₁ a b ≡ some l =
                subst (λ c. entry m₁ c b ≡ some l) ea
                  (subst (λ d. entry m₁ i d ≡ some l) eb first.here) in
              ground (arith, same, here, e')
          | inr e' ↦
              let same' : entry m₁ a b ≡ entry m a b =
                first.elsewhere a b (omega (arith, q, h.square.0)) (λ ea eb.
                  let t : ((a == i) && (b == j)) ≡ true = ground arith in absurd (cc (t, e'))) in
              ground (arith, same, same', e, e')
        ]
  ]

  pub edge-IsSymmetric : IsSymmetric m₂
  edge-IsSymmetric = record {
    square = (w₂.rows ∙ w₁.rows ∙ h.square.0 ∙ sym w₁.cols ∙ sym w₂.cols, second.full);
    mirror = λ a b p q.
        let p' : a < m.n_rows = omega (arith, p, w₂.rows, w₁.rows) in
        let q' : b < m.n_rows = omega (arith, q, w₂.rows, w₁.rows) in
        let mirrored = h.mirror a b p' q' in
        let swap : (if hit a b then some l else entry m a b)
            ≡ (if hit b a then some l else entry m b a) =
          ground (arith, mirrored) in
        value a b p' q' ∙ swap ∙ sym (value b a q' p');
  }
