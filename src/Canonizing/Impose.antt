-- ===== src/Canonizing/Impose.antt =====
-- `indexing`, and the lexicographic implications on the strings of a graph and a permuted graph.
use phd_thesis_src.Prelude.{
  ℕ, suc, ◌<◌, ◌≡◌, refl, sym, ap, ap₂, ◌∙◌, true, List, [], ◌∷◌, arith, All, length, ok, Returns,
}
use phd_thesis_src.Sat.Semantics.{Valuation}
use phd_thesis_src.Order.{Graph, implied_at}
use phd_thesis_src.Matrix.{Matrix, image, upper_cells, lower_cells}
use phd_thesis_src.Matrix.Cells.{InRange, upper_cells-InRange, lower_cells-InRange}
use phd_thesis_src.Matrix.Permute.{Maps, image-lt}
use phd_thesis_src.Matrix.Strings.{
  IsTable, at_cells, permuted, upper_triangle-at_cells, lower_triangle-at_cells, permute-IsTable,
}
use phd_thesis_src.Constraints.{BoolVarRef, Solver}
use phd_thesis_src.Constraints.Semantics.{ref_value, values, IsRef, vars, IsValid}
use phd_thesis_src.Constraints.Encodes.{Encodes, Encodes_map}
use phd_thesis_src.Constraints.Lex.Implication.{bool_arrays_lex_implication-Encodes}
use phd_thesis_src.Constraints.Graphs.Pairs.{table}
use phd_thesis_src.Canonizing.{
  CanonicalIndexing, upper_triangle_rows, upper_triangle_cols, indexing, impose,
}

-- The cells of a string, and the string of a graph (or of a matrix of references).
abbrev pub cells_of : CanonicalIndexing → ℕ → List (ℕ × ℕ)
cells_of upper_triangle_rows n = upper_cells 0 n n
cells_of upper_triangle_cols n = lower_cells 0 n

abbrev pub string {ℓ} : {A : Type ℓ} → CanonicalIndexing → ℕ → (ℕ → ℕ → A) → List A
string index n x = at_cells x (cells_of index n)

pub cells_of-InRange : (index : CanonicalIndexing) (n : ℕ) → All (InRange n n) (cells_of index n)
cells_of-InRange upper_triangle_rows n = upper_cells-InRange n n 0 n (omega arith) (omega arith)
cells_of-InRange upper_triangle_cols n = lower_cells-InRange n n 0 n (omega arith) (omega arith)

pub indexing-string :
    {A : Type 0} (index : CanonicalIndexing) (n : ℕ) (m : Matrix A) (x : ℕ → ℕ → A)
    → IsTable n m x
    → indexing index m ≡ ok (string index n x)
unfolding indexing
indexing-string upper_triangle_rows n m x t = upper_triangle-at_cells n m x t
indexing-string upper_triangle_cols n m x t = lower_triangle-at_cells n m x t

-- The values of the references at the cells.
pub values-at_cells :
    (v : Valuation) (x : ℕ → ℕ → BoolVarRef) (cs : List (ℕ × ℕ))
    → values v (at_cells x cs) ≡ at_cells (table v x) cs
values-at_cells v x [] = refl
values-at_cells v x (c ∷ cs) = ap (λ t. ref_value v (x c.0 c.1) ∷ t) (values-at_cells v x cs)

length-at_cells :
    {A : Type 0} (x : ℕ → ℕ → A) (cs : List (ℕ × ℕ)) → length (at_cells x cs) ≡ length cs
length-at_cells x [] = refl
length-at_cells x (c ∷ cs) = ap suc (length-at_cells x cs)

-- The references of a table are those of variables.
abbrev pub AreRefs : ℕ → Solver → (ℕ → ℕ → BoolVarRef) → Type 0
AreRefs n s x = (i j : ℕ) → i < n → j < n → IsRef (vars s) (x i j)

at_cells-refs :
    (n : ℕ) (s : Solver) (x : ℕ → ℕ → BoolVarRef) (cs : List (ℕ × ℕ))
    → AreRefs n s x
    → All (InRange n n) cs
    → All (IsRef (vars s)) (at_cells x cs)
at_cells-refs n s x [] h r = tt
at_cells-refs n s x (c ∷ cs) h r = (h c.0 c.1 r.0.0 r.0.1, at_cells-refs n s x cs h r.1)

module _ (index : CanonicalIndexing) (n : ℕ) where
  pub string-refs :
      (s : Solver) (x : ℕ → ℕ → BoolVarRef)
      → AreRefs n s x
      → All (IsRef (vars s)) (string index n x)
  string-refs s x h = at_cells-refs n s x (cells_of index n) h (cells_of-InRange index n)

  pub length-string :
      {A : Type 0} (x : ℕ → ℕ → A) → length (string index n x) ≡ length (cells_of index n)
  length-string x = length-at_cells x (cells_of index n)

  -- The graph meets the implication of length k + 1 for the permutation.
  abbrev pub Meets : ℕ → List ℕ → Graph → Type 0
  Meets k perm e = implied_at k (string index n e) (string index n (permuted perm e)) ≡ true

  -- On a valid solver, with an n by n matrix of references to its variables, their string, a vector
  -- of indices below n and a length from 1 to that of the string, the call of
  -- `boolArraysLexImplication` on the permuted matrix succeeds. In its models the graph meets the
  -- implication, and each model of the solver with that becomes one when the new variables get
  -- values.
  pub impose-Encodes :
      (g : Matrix BoolVarRef) (x : ℕ → ℕ → BoolVarRef) (perm : List ℕ) (k : ℕ) (s : Solver)
      → IsValid s
      → IsTable n g x
      → AreRefs n s x
      → Maps n perm
      → k < length (cells_of index n)
      → Returns
          (impose index g (string index n x) perm (suc k) s)
          λ s'. Encodes s s' (λ v. Meets k perm (table v x)) (λ v. Meets k perm (table v x))
  unfolding impose
  impose-Encodes g x perm k s h t refs maps lt =
      let (m, run, t') = permute-IsTable n g x perm t maps in
      let y = permuted perm x in
      let refs' = λ (i j : ℕ) (p : i < n) (q : j < n).
        refs (image perm i) (image perm j) (image-lt n i perm maps p) (image-lt n j perm maps q) in
      let (s', run', step) =
        bool_arrays_lex_implication-Encodes k (string index n x) (string index n y) s h
          (omega (arith, length-string x)) (length-string x ∙ sym (length-string y))
          (string-refs s x refs) (string-refs s y refs') in
      let same = λ (v : Valuation).
        ap₂ (λ a b. implied_at k a b) (values-at_cells v x (cells_of index n))
          (values-at_cells v y (cells_of index n)) in
      (
        s',
        rw run (rw (indexing-string index n m y t') run'),
        Encodes_map step (λ v p. same v ∙ p) (λ v q. sym (same v) ∙ q),
      )
