-- ===== src/Reducer/Strings.antt =====
-- The strings of edge numbers of core/LexImplicationsReducer.cc, and the graphs that they stand for.
use phd_thesis_src.Prelude.{
  ℕ, suc, ◌-◌, ◌<◌, ◌≡◌, ◌≢◌, refl, ap, ap₂, ◌∙◌, Bool, true, List, [], ◌∷◌, ℤ, All, length, ok,
}
use phd_thesis_src.Sat.Semantics.{Valuation}
use phd_thesis_src.Order.{Graph, implied_at}
use phd_thesis_src.Matrix.{Matrix, image}
use phd_thesis_src.Matrix.Cells.{
  InRange, OffDiagonal, upper_cells-OffDiagonal, lower_cells-OffDiagonal,
}
use phd_thesis_src.Matrix.Permute.{Maps, IsInjective, image-lt}
use phd_thesis_src.Matrix.Strings.{
  IsTable, at_cells, permuted, upper_triangle-at_cells, core_lower_triangle-at_cells,
  permute-IsTable,
}
use phd_thesis_src.Constraints.Semantics.{ref_value, values, IsRef}
use phd_thesis_src.Constraints.Graphs.Pairs.{table}
use phd_thesis_src.Canonizing.{
  CanonicalIndexing, upper_triangle_rows, upper_triangle_cols, LexImplication,
}
use phd_thesis_src.Canonizing.Impose.{cells_of, string, cells_of-InRange, values-at_cells}
use phd_thesis_src.Canonizing.Start.{IsImplication, MeetsImplication}
use phd_thesis_src.Reducer.Construct.{LexImplicationsReducer}
use phd_thesis_src.Reducer.Clauses.{indexing, permuted_string}

indexing-string :
    (index : CanonicalIndexing) (n : ℕ) (g : Matrix ℤ) (x : ℕ → ℕ → ℤ)
    → IsTable n g x
    → indexing index g ≡ ok (string index n x)
unfolding indexing
indexing-string upper_triangle_rows n g x t = upper_triangle-at_cells n g x t
indexing-string upper_triangle_cols n g x t = core_lower_triangle-at_cells n g x t

cells_of-OffDiagonal : (index : CanonicalIndexing) (n : ℕ) → All OffDiagonal (cells_of index n)
cells_of-OffDiagonal upper_triangle_rows n = upper_cells-OffDiagonal 0 n n
cells_of-OffDiagonal upper_triangle_cols n = lower_cells-OffDiagonal 0 n

-- A property of the cells off the diagonal of an n by n table.
abbrev pub Off : ℕ → (ℕ → ℕ → Type 0) → Type 0
Off n P = (i j : ℕ) → i < n → j < n → i ≢ j → P i j

Off-permuted :
    (n : ℕ) (P : ℕ → ℕ → Type 0) (perm : List ℕ)
    → Maps n perm
    → IsInjective n perm
    → Off n P
    → Off n (λ i j. P (image perm i) (image perm j))
Off-permuted n P perm maps inj h i j p q ne =
    h (image perm i) (image perm j) (image-lt n i perm maps p) (image-lt n j perm maps q)
      (λ e. ne (inj i j p q e))

at_cells-IsRef :
    (n m : ℕ) (x : ℕ → ℕ → ℤ) (cs : List (ℕ × ℕ))
    → Off n (λ i j. IsRef m (x i j))
    → All (InRange n n) cs
    → All OffDiagonal cs
    → All (IsRef m) (at_cells x cs)
at_cells-IsRef n m x [] h r o = tt
at_cells-IsRef n m x (c ∷ cs) h r o = (h c.0 c.1 r.0.0 r.0.1 o.0, at_cells-IsRef n m x cs h r.1 o.1)

at_cells-same :
    (n : ℕ) (e f : Graph) (cs : List (ℕ × ℕ))
    → Off n (λ i j. e i j ≡ f i j)
    → All (InRange n n) cs
    → All OffDiagonal cs
    → at_cells e cs ≡ at_cells f cs
at_cells-same n e f [] h r o = refl
at_cells-same n e f (c ∷ cs) h r o =
    ap₂ (λ a b. a ∷ b) (h c.0 c.1 r.0.0 r.0.1 o.0) (at_cells-same n e f cs h r.1 o.1)

length-at_cells : (x : ℕ → ℕ → ℤ) (cs : List (ℕ × ℕ)) → length (at_cells x cs) ≡ length cs
length-at_cells x [] = refl
length-at_cells x (c ∷ cs) = ap suc (length-at_cells x cs)

-- The reducer has the matrix and the indexing.
abbrev pub Has : CanonicalIndexing → Matrix ℤ → LexImplicationsReducer → Type 0
Has index g r = (r.adj_matrix ≡ g) × (r.index ≡ index)

-- The values of the edges are those of the graph.
abbrev pub ShowsGraph : ℕ → (ℕ → ℕ → ℤ) → Valuation → Graph → Type 0
ShowsGraph n x v e = Off n (λ i j. ref_value v (x i j) ≡ e i j)

-- The implication at the values of the numbers.
abbrev pub implied : CanonicalIndexing → ℕ → (ℕ → ℕ → ℤ) → Valuation → LexImplication → Bool
implied index n x v y =
    implied_at (y.length - 1) (values v (string index n x))
      (values v (string index n (permuted y.perm x)))

module _ (index : CanonicalIndexing) (n m : ℕ) (g : Matrix ℤ) (x : ℕ → ℕ → ℤ) (t : IsTable n g x)
    (refs : Off n (λ i j. IsRef m (x i j))) where
  pub length-string : (y : ℕ → ℕ → ℤ) → length (string index n y) ≡ length (cells_of index n)
  length-string y = length-at_cells y (cells_of index n)

  pub string-IsRef : All (IsRef m) (string index n x)
  string-IsRef =
      at_cells-IsRef n m x (cells_of index n) refs (cells_of-InRange index n)
        (cells_of-OffDiagonal index n)

  pub permuted-IsRef :
      (perm : List ℕ)
      → Maps n perm
      → IsInjective n perm
      → All (IsRef m) (string index n (permuted perm x))
  permuted-IsRef perm maps inj =
      at_cells-IsRef n m (permuted perm x) (cells_of index n)
        (Off-permuted n (λ i j. IsRef m (x i j)) perm maps inj refs) (cells_of-InRange index n)
        (cells_of-OffDiagonal index n)

  pub string_lem :
      (r : LexImplicationsReducer)
      → Has index g r
      → indexing r.index r.adj_matrix ≡ ok (string index n x)
  string_lem r (eg, ei) = ap₂ (λ a b. indexing b a) eg ei ∙ indexing-string index n g x t

  pub permuted_string_lem :
      (r : LexImplicationsReducer) (perm : List ℕ)
      → Has index g r
      → Maps n perm
      → permuted_string perm r ≡ ok (string index n (permuted perm x))
  unfolding permuted_string
  permuted_string_lem r perm (eg, ei) maps =
      let (g', run, t') = permute-IsTable n g x perm t maps in
      rw (eg, ei) (rw run (indexing-string index n g' (permuted perm x) t'))

  -- It is the implication for the graph.
  pub implied-MeetsImplication :
      (v : Valuation) (e : Graph) (y : LexImplication)
      → ShowsGraph n x v e
      → IsImplication index n y
      → (implied index n x v y ≡ true) ≡ MeetsImplication index n e y
  implied-MeetsImplication v e y shows h =
      let cs = cells_of index n in
      let maps = h.0 in
      let inj = h.4 in
      let here =
        values-at_cells v x cs
        ∙ at_cells-same n (table v x) e cs shows (cells_of-InRange index n)
            (cells_of-OffDiagonal index n) in
      let there =
        values-at_cells v (permuted y.perm x) cs
        ∙ at_cells-same n (table v (permuted y.perm x)) (permuted y.perm e) cs
            (Off-permuted n (λ i j. ref_value v (x i j) ≡ e i j) y.perm maps inj shows)
            (cells_of-InRange index n) (cells_of-OffDiagonal index n) in
      ap₂ (λ a b. implied_at (y.length - 1) a b ≡ true) here there
