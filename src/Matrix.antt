-- ===== src/Matrix.antt =====
-- mtl/Matrix.h: a matrix in one vector, row by row. A cell outside the
-- vector is not there; the code has undefined behaviour when it accesses one.
pub mod Cells
pub mod Permute
pub mod Writes
pub mod Upper
pub mod Strings
pub mod Ones
pub mod Values
pub mod Core
mod Tests
use phd_thesis_src.Prelude.{
  ℕ, zero, suc, ◌+◌, ◌-◌, ◌*◌, List, [], ◌∷◌, ◌++◌, map, length, get_elem?, set as list_set,
  replicate, Result, ok, err, undefined_access, ◌>>=◌, orelse, ltb, if◌then◌else◌, get_or, Option,
}

pub record Matrix {ℓ} (A : Type ℓ) : Type ℓ where
  pub elements : List A
  pub n_rows : ℕ
  pub n_cols : ℕ

-- `i` and `j` from 0 on with `j` in a range of `k` numbers from `j` on: one run of an inner loop.
pub row_cells : ℕ → ℕ → ℕ → List (ℕ × ℕ)
row_cells i j zero = []
row_cells i j (suc k) = (i, j) ∷ row_cells i (suc j) k

-- The cells that the loops of `permute`, `upperTriangle` and `lowerTriangle` visit, from row `i`.
pub all_cells : ℕ → ℕ → ℕ → List (ℕ × ℕ)
all_cells i zero cols = []
all_cells i (suc rows) cols = row_cells i 0 cols ++ all_cells (suc i) rows cols

pub upper_cells : ℕ → ℕ → ℕ → List (ℕ × ℕ)
upper_cells i zero cols = []
upper_cells i (suc rows) cols = row_cells i (suc i) (cols - suc i) ++ upper_cells (suc i) rows cols

pub lower_cells : ℕ → ℕ → List (ℕ × ℕ)
lower_cells i zero = []
lower_cells i (suc rows) = row_cells i 0 i ++ lower_cells (suc i) rows

-- `i < perm.size() ? perm[i] : i`
abbrev pub image : List ℕ → ℕ → ℕ
image perm i = get_or perm i i

module _ {ℓ} {A : Type ℓ} where
  -- The constructor; `d` is the default value of the elements.
  unfoldable pub new_matrix : A → ℕ → ℕ → Matrix A
  new_matrix d n m = record { elements = replicate (n * m) d; n_rows = n; n_cols = m }

  abbrev nrows : Matrix A → ℕ
  nrows m = m.n_rows

  abbrev ncols : Matrix A → ℕ
  ncols m = m.n_cols

  -- m_elements[i * m_nCols + j]
  pub entry : Matrix A → ℕ → ℕ → Option A
  entry m i j = get_elem? m.elements (i * m.n_cols + j)

  pub get : Matrix A → ℕ → ℕ → Result A
  unfolding entry
  get m i j = orelse (entry m i j) undefined_access

  unfoldable pub set : Matrix A → ℕ → ℕ → A → Result (Matrix A)
  set m i j value =
      let k = i * m.n_cols + j in
      if ltb k (length m.elements)
      then ok (record m { elements = list_set m.elements k value })
      else err undefined_access

  -- The values that a loop reads, in the order in which it visits the cells.
  pub read_cells : Matrix A → List (ℕ × ℕ) → Result (List A)
  unfolding get
  read_cells m [] = ok []
  read_cells m (c ∷ cs) = get m c.0 c.1 >>= (λ x. read_cells m cs >>= (λ xs. ok (x ∷ xs)))

  -- The loops write each cell once, row by row.
  pub permute : Matrix A → List ℕ → Result (Matrix A)
  unfolding read_cells all_cells row_cells
  permute m perm =
      read_cells m (map (λ c. (image perm c.0, image perm c.1)) (all_cells 0 (nrows m) (ncols m)))
      >>= (λ es. ok (record m { elements = es }))

  pub upper_triangle : Matrix A → Result (List A)
  unfolding read_cells upper_cells row_cells
  upper_triangle m = read_cells m (upper_cells 0 (nrows m) (ncols m))

  pub lower_triangle : Matrix A → Result (List A)
  unfolding read_cells lower_cells row_cells
  lower_triangle m = read_cells m (lower_cells 0 (ncols m))

  -- The other copy of the header runs over the rows.
  pub core_lower_triangle : Matrix A → Result (List A)
  unfolding read_cells lower_cells row_cells
  core_lower_triangle m = read_cells m (lower_cells 0 (nrows m))
