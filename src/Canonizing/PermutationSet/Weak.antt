-- ===== src/Canonizing/PermutationSet/Weak.antt =====
-- The constraint that the string of a graph is at most that of the permuted graph.
use phd_thesis_src.Prelude.{ℕ, ◌≡◌, sym, ap₂, ◌∙◌, true, List, All, ok, Returns}
use phd_thesis_src.Sat.Semantics.{Valuation}
use phd_thesis_src.Order.{Graph, lex_le, lex_lt}
use phd_thesis_src.Matrix.{Matrix, image, permute}
use phd_thesis_src.Matrix.Permute.{Maps, image-lt}
use phd_thesis_src.Matrix.Strings.{IsTable, permuted, permute-IsTable}
use phd_thesis_src.Constraints.{BoolVarRef, Solver}
use phd_thesis_src.Constraints.Semantics.{Agree, vars, IsValid}
use phd_thesis_src.Constraints.Encodes.{Encodes, Encodes_map}
use phd_thesis_src.Constraints.Lex.{bool_arrays_lex}
use phd_thesis_src.Constraints.Lex.Weak.{bool_arrays_lex-Encodes}
use phd_thesis_src.Constraints.Graphs.Pairs.{table}
use phd_thesis_src.Canonizing.{CanonicalIndexing, indexing}
use phd_thesis_src.Canonizing.Impose.{
  cells_of, string, AreRefs, indexing-string, values-at_cells, string-refs, length-string,
}
use phd_thesis_src.Canonizing.Start.{string_congr}

module _ (index : CanonicalIndexing) (n : ℕ) where
  -- The string of the graph is at most that of the permuted graph.
  abbrev pub IsAtMost : Graph → List ℕ → Type 0
  IsAtMost e perm = lex_le (string index n e) (string index n (permuted perm e)) ≡ true

  abbrev pub IsAtMostAll : List (List ℕ) → Graph → Type 0
  IsAtMostAll perms e = All (IsAtMost e) perms

  -- The string of the first graph is less than that of the second.
  abbrev pub IsLess : Graph → Graph → Type 0
  IsLess f e = lex_lt (string index n f) (string index n e) ≡ true

  permuted_refs :
      (s : Solver) (x : ℕ → ℕ → BoolVarRef) (perm : List ℕ)
      → AreRefs n s x
      → Maps n perm
      → AreRefs n s (permuted perm x)
  permuted_refs s x perm h maps i j p q =
      h (image perm i) (image perm j) (image-lt n i perm maps p) (image-lt n j perm maps q)

  pub IsAtMost-congr :
      (s : Solver) (x : ℕ → ℕ → BoolVarRef) (perm : List ℕ) (v w : Valuation)
      → AreRefs n s x
      → Maps n perm
      → Agree (vars s) v w
      → IsAtMost (table v x) perm
      → IsAtMost (table w x) perm
  IsAtMost-congr s x perm v w h maps agree m =
      ap₂ (λ a b. lex_le a b) (sym (string_congr index n s x v w h agree))
        (sym (string_congr index n s (permuted perm x) v w (permuted_refs s x perm h maps) agree))
      ∙ m

  -- The calls that post the constraint for a permutation.
  pub record Posted (g : Matrix BoolVarRef) (x : ℕ → ℕ → BoolVarRef) (perm : List ℕ) (s : Solver)
      : Type 0 where
    pub matrix : Matrix BoolVarRef
    pub permutes : permute g perm ≡ ok matrix
    pub indexes : indexing index matrix ≡ ok (string index n (permuted perm x))
    pub posts :
        Returns
          (bool_arrays_lex (string index n x) (string index n (permuted perm x)) s)
          λ s'. Encodes s s' (λ v. IsAtMost (table v x) perm) (λ v. IsAtMost (table v x) perm)

  pub post_lem :
      (g : Matrix BoolVarRef) (x : ℕ → ℕ → BoolVarRef) (perm : List ℕ) (s : Solver)
      → IsValid s
      → IsTable n g x
      → AreRefs n s x
      → Maps n perm
      → Posted g x perm s
  post_lem g x perm s h t refs maps =
      let (m, run, t') = permute-IsTable n g x perm t maps in
      let y = permuted perm x in
      let (s', run', step) =
        bool_arrays_lex-Encodes (string index n x) (string index n y) s h
          (length-string index n x ∙ sym (length-string index n y)) (string-refs index n s x refs)
          (string-refs index n s y (permuted_refs s x perm refs maps)) in
      let same = λ (v : Valuation).
        ap₂ (λ a b. lex_le a b) (values-at_cells v x (cells_of index n))
          (values-at_cells v y (cells_of index n)) in
      record {
        matrix = m;
        permutes = run;
        indexes = indexing-string index n m y t';
        posts = (s', run', Encodes_map step (λ v p. same v ∙ p) (λ v q. sym (same v) ∙ q));
      }
