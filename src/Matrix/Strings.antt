-- ===== src/Matrix/Strings.antt =====
-- The triangles of a matrix whose cells are known.
use phd_thesis_src.Prelude.{
  ℕ, ◌<◌, ◌≡◌, refl, sym, ap, ◌∙◌, List, [], ◌∷◌, map, arith, All, some, ok, Returns, subst,
}
use phd_thesis_src.Matrix.{
  Matrix, image, entry, permute, read_cells, upper_cells, lower_cells, upper_triangle,
  lower_triangle, core_lower_triangle,
}
use phd_thesis_src.Matrix.Cells.{InRange, upper_cells-InRange, lower_cells-InRange, get_lem}
use phd_thesis_src.Matrix.Permute.{Maps, IsSquare, permute-Permuted, image-lt}

-- The values at the cells, and the table of a matrix whose rows and columns are permuted.
abbrev pub at_cells {ℓ} : {A : Type ℓ} → (ℕ → ℕ → A) → List (ℕ × ℕ) → List A
at_cells x cs = map (λ c. x c.0 c.1) cs

abbrev pub permuted {ℓ} : {A : Type ℓ} → List ℕ → (ℕ → ℕ → A) → ℕ → ℕ → A
permuted perm x i j = x (image perm i) (image perm j)

module _ {A : Type 0} where
  -- An n by n matrix with the elements `x`.
  pub record IsTable (n : ℕ) (m : Matrix A) (x : ℕ → ℕ → A) : Type 0 where
    pub rows : m.n_rows ≡ n
    pub cols : m.n_cols ≡ n
    pub square : IsSquare m
    pub cells : (i j : ℕ) → i < n → j < n → entry m i j ≡ some (x i j)

  read_cells-at_cells :
      (n : ℕ) (m : Matrix A) (x : ℕ → ℕ → A) (cs : List (ℕ × ℕ))
      → IsTable n m x
      → All (InRange n n) cs
      → read_cells m cs ≡ ok (at_cells x cs)
  unfolding read_cells
  read_cells-at_cells n m x [] t r = refl
  read_cells-at_cells n m x (c ∷ cs) t r =
      rw (get_lem m c.0 c.1 (x c.0 c.1) (t.cells c.0 c.1 r.0.0 r.0.1))
        (rw (read_cells-at_cells n m x cs t r.1) refl)

  pub upper_triangle-at_cells :
      (n : ℕ) (m : Matrix A) (x : ℕ → ℕ → A)
      → IsTable n m x
      → upper_triangle m ≡ ok (at_cells x (upper_cells 0 n n))
  unfolding upper_triangle
  upper_triangle-at_cells n m x t =
      ap (λ k. read_cells m (upper_cells 0 k m.n_cols)) t.rows
      ∙ ap (λ k. read_cells m (upper_cells 0 n k)) t.cols
      ∙ read_cells-at_cells n m x (upper_cells 0 n n) t
          (upper_cells-InRange n n 0 n (omega arith) (omega arith))

  pub lower_triangle-at_cells :
      (n : ℕ) (m : Matrix A) (x : ℕ → ℕ → A)
      → IsTable n m x
      → lower_triangle m ≡ ok (at_cells x (lower_cells 0 n))
  unfolding lower_triangle
  lower_triangle-at_cells n m x t =
      ap (λ k. read_cells m (lower_cells 0 k)) t.cols
      ∙ read_cells-at_cells n m x (lower_cells 0 n) t
          (lower_cells-InRange n n 0 n (omega arith) (omega arith))

  -- The other copy of the header reads the same cells of a square matrix.
  pub core_lower_triangle-at_cells :
      (n : ℕ) (m : Matrix A) (x : ℕ → ℕ → A)
      → IsTable n m x
      → core_lower_triangle m ≡ ok (at_cells x (lower_cells 0 n))
  unfolding core_lower_triangle
  core_lower_triangle-at_cells n m x t =
      ap (λ k. read_cells m (lower_cells 0 k)) t.rows
      ∙ read_cells-at_cells n m x (lower_cells 0 n) t
          (lower_cells-InRange n n 0 n (omega arith) (omega arith))

  pub permute-IsTable :
      (n : ℕ) (m : Matrix A) (x : ℕ → ℕ → A) (perm : List ℕ)
      → IsTable n m x
      → Maps n perm
      → Returns (permute m perm) λ m'. IsTable n m' (permuted perm x)
  permute-IsTable n m x perm t h =
      let (m', run, p) =
        permute-Permuted m perm t.square (subst (λ k. Maps k perm) (sym t.rows) h) in
      (
        m',
        run,
        record {
          rows = p.rows ∙ t.rows;
          cols = p.cols ∙ t.cols;
          square = p.square;
          cells = λ i j li lj.
              p.cells i j (omega (arith, t.rows)) (omega (arith, t.cols))
              ∙ t.cells (image perm i) (image perm j) (image-lt n i perm h li)
                  (image-lt n j perm h lj);
        },
      )
