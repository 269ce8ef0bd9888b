-- ===== src/Matrix/Core.antt =====
-- core/Matrix.h, the copy of mtl/Matrix.h that the reducer and the graph reader include, with its
-- loops as they are written. Both copies have one include guard.
pub mod Triangles
pub mod Copies
use phd_thesis_src.Prelude.{
  ℕ, zero, suc, ◌+◌, ◌-◌, ◌*◌, List, [], ◌∷◌, ◌++◌, length, get_elem?, set as list_set, replicate,
  Result, ok, err, undefined_access, ◌>>=◌, orelse, ltb, if◌then◌else◌,
}
use phd_thesis_src.Matrix.{
  Matrix, image, new_matrix, nrows, ncols, get, set, permute, upper_triangle, lower_triangle,
}

-- The public methods of the class, for elements of a type and over any representation.
pub record MatrixClass (A M : Type 0) : Type 0 where
  pub new : ℕ → ℕ → M
  pub get : M → ℕ → ℕ → Result A
  pub set : M → ℕ → ℕ → A → Result M
  pub nrows : M → ℕ
  pub ncols : M → ℕ
  pub permute : M → List ℕ → Result M
  pub upper_triangle : M → Result (List A)
  pub lower_triangle : M → Result (List A)

pub record CoreMatrix (A : Type 0) : Type 0 where
  pub elements : List A
  pub n_rows : ℕ
  pub n_cols : ℕ

module _ {A : Type 0} where
  -- The constructor; `d` is the default value of the elements.
  pub core_new : A → ℕ → ℕ → CoreMatrix A
  core_new d n m = record { elements = replicate (n * m) d; n_rows = n; n_cols = m }

  pub core_get : CoreMatrix A → ℕ → ℕ → Result A
  core_get m i j = orelse (get_elem? m.elements (i * m.n_cols + j)) undefined_access

  pub core_set : CoreMatrix A → ℕ → ℕ → A → Result (CoreMatrix A)
  core_set m i j value =
      let k = i * m.n_cols + j in
      if ltb k (length m.elements)
      then ok (record m { elements = list_set m.elements k value })
      else err undefined_access

  abbrev core_nrows : CoreMatrix A → ℕ
  core_nrows m = m.n_rows

  abbrev core_ncols : CoreMatrix A → ℕ
  core_ncols m = m.n_cols

  -- The loop of `permute` over `j`, `k` rounds from `j` on.
  pub permute_row : CoreMatrix A → List ℕ → ℕ → ℕ → ℕ → CoreMatrix A → Result (CoreMatrix A)
  unfolding core_get core_set
  permute_row m perm i j zero permuted = ok permuted
  permute_row m perm i j (suc k) permuted =
      core_get m (image perm i) (image perm j)
      >>= (λ x. core_set permuted i j x >>= permute_row m perm i (suc j) k)

  -- The loop over `i`.
  pub permute_rows : CoreMatrix A → List ℕ → ℕ → ℕ → CoreMatrix A → Result (CoreMatrix A)
  unfolding permute_row
  permute_rows m perm i zero permuted = ok permuted
  permute_rows m perm i (suc r) permuted =
      permute_row m perm i 0 (core_ncols m) permuted >>= permute_rows m perm (suc i) r

  pub core_permute : A → CoreMatrix A → List ℕ → Result (CoreMatrix A)
  unfolding permute_rows core_new
  core_permute d m perm =
      permute_rows m perm 0 (core_nrows m) (core_new d (core_nrows m) (core_ncols m))

  -- The loops of the triangles over `j`, `k` rounds from `j` on.
  pub push_row : CoreMatrix A → ℕ → ℕ → ℕ → List A → Result (List A)
  unfolding core_get
  push_row m i j zero t = ok t
  push_row m i j (suc k) t = core_get m i j >>= (λ x. push_row m i (suc j) k (t ++ (x ∷ [])))

  pub upper_rows : CoreMatrix A → ℕ → ℕ → List A → Result (List A)
  unfolding push_row
  upper_rows m i zero ut = ok ut
  upper_rows m i (suc r) ut =
      push_row m i (suc i) (core_ncols m - suc i) ut >>= upper_rows m (suc i) r

  pub core_upper_triangle : CoreMatrix A → Result (List A)
  unfolding upper_rows
  core_upper_triangle m = upper_rows m 0 (core_nrows m) []

  pub lower_rows : CoreMatrix A → ℕ → ℕ → List A → Result (List A)
  unfolding push_row
  lower_rows m i zero lt = ok lt
  lower_rows m i (suc r) lt = push_row m i 0 i lt >>= lower_rows m (suc i) r

  pub core_lower : CoreMatrix A → Result (List A)
  unfolding lower_rows
  core_lower m = lower_rows m 0 (core_nrows m) []

  -- The two copies of the class.
  abbrev pub core_matrix : A → MatrixClass A (CoreMatrix A)
  core_matrix d = record {
    new = core_new d;
    get = core_get;
    set = core_set;
    nrows = core_nrows;
    ncols = core_ncols;
    permute = core_permute d;
    upper_triangle = core_upper_triangle;
    lower_triangle = core_lower;
  }

  abbrev pub mtl_matrix : A → MatrixClass A (Matrix A)
  mtl_matrix d = record {
    new = new_matrix d;
    get = get;
    set = set;
    nrows = nrows;
    ncols = ncols;
    permute = permute;
    upper_triangle = upper_triangle;
    lower_triangle = lower_triangle;
  }
