-- ===== src/Constraints/Graphs/Isomorphism.antt =====
-- `isomorphic`: the second graph is the first one with its vertices permuted.
use phd_thesis_src.Prelude.{
  ℕ, ◌<◌, ◌≤◌, ltb, ◌≡◌, sym, ap, ◌∙◌, Bool, true, List, arith, Returns, Bool-cases, inl, inr,
}
use phd_thesis_src.Sat.Semantics.{Valuation}
use phd_thesis_src.Order.{Graph, IsGraph}
use phd_thesis_src.Matrix.{Matrix, upper_cells}
use phd_thesis_src.Matrix.Upper.{upper_cells-each, upper_cells-at}
use phd_thesis_src.Constraints.{BoolVarRef, IntVarRef, Solver}
use phd_thesis_src.Constraints.Semantics.{holds}
use phd_thesis_src.Constraints.Encodes.{Encodes}
use phd_thesis_src.Constraints.Ints.Single.{ones}
use phd_thesis_src.Constraints.Graphs.{match_cells, isomorphic}
use phd_thesis_src.Constraints.Graphs.Tally.{IsPerm, off_rows, some_true}
use phd_thesis_src.Constraints.Graphs.Selected.{
  selected, ones-selected, some_true-selected, IsPerm-column, IsPerm-from,
}
use phd_thesis_src.Constraints.Graphs.Pairs.{table}
use phd_thesis_src.Constraints.Graphs.Match.{CellOk, CellOnce, Above, Given, match_cells-Encodes}

-- Where `p` sends k to i and l to j, the second graph has at (k, l) what the first has at (i, j).
abbrev pub IsPermutedBy : ℕ → (ℕ → ℕ → Bool) → Graph → Graph → Type 0
IsPermutedBy n p e f =
    (k l i j : ℕ) → k < n → l < n → i < n → j < n → p k i ≡ true → p l j ≡ true → f k l ≡ e i j

-- What is known of the arguments in the models of the solver.
abbrev pub AreGraphs : ℕ → (ℕ → ℕ → Bool) → Graph → Graph → Type 0
AreGraphs n p e f = IsPerm n p × IsGraph n e × IsGraph n f

-- The cells of the first graph are the disjunctions of the gates exactly when the second graph is
-- the first one permuted.
module _ (n : ℕ) (p : ℕ → ℕ → Bool) (e f : Graph) (h : AreGraphs n p e f) where
  abbrev gates : ℕ × ℕ → List Bool
  gates c = off_rows (selected p f c) n 0 n

  IsPermutedBy-cells :
      IsPermutedBy n p e f → (i j : ℕ) → i < j → j < n → e i j ≡ some_true (gates (i, j))
  IsPermutedBy-cells iso i j lt lj =
      let (k, lk, hk) = IsPerm-from n p f h.0 i (omega arith) in
      let (l, ll, hl) = IsPerm-from n p f h.0 j lj in
      sym (iso k l i j lk ll (omega arith) lj hk hl)
      ∙ sym (
          some_true-selected n p f h.0 i j k l (omega arith) lj lk ll (λ same. absurd (omega arith))
            hk hl)

  cells-IsPermutedBy :
      ((i j : ℕ) → i < j → j < n → ones (gates (i, j)) ≤ 1 → e i j ≡ some_true (gates (i, j)))
      → IsPermutedBy n p e f
  cells-IsPermutedBy cells k l i j lk ll li lj hk hl = elim (Bool-cases (ltb i j)) [
    | inl lt ↦ ordered i j k l (ground arith) lj lk ll hk hl
    | inr ge ↦ elim (Bool-cases (ltb j i)) [
      | inl gt ↦
          h.2.symmetric k l lk ll
          ∙ ordered j i l k (ground arith) li ll lk hl hk
          ∙ h.1.symmetric j i lj li
      | inr le ↦
          let same : i ≡ j = ground arith in
          let ek = IsPerm-column n p f h.0 j k l lj lk ll (ap (p k) (sym same) ∙ hk) hl in
          ap (λ c. f c l) ek ∙ h.2.no_loops l ll ∙ sym (ap (λ c. e c j) same ∙ h.1.no_loops j lj)
    ]
  ]
    where
      ordered :
          (i j k l : ℕ)
          → i < j
          → j < n
          → k < n
          → l < n
          → p k i ≡ true
          → p l j ≡ true
          → f k l ≡ e i j
      ordered i j k l lt lj lk ll hk hl = sym (
          cells i j lt lj (ones-selected n p f h.0 i j (omega arith) lj)
          ∙ some_true-selected n p f h.0 i j k l (omega arith) lj lk ll
              (λ same. absurd (omega arith)) hk hl)

module _ (n : ℕ) (g1 g2 : Matrix BoolVarRef) (perm : List IntVarRef) (r x1 x2 : ℕ → ℕ → BoolVarRef)
    (s : Solver) where
  -- The models give the references the values of a permutation and of two graphs.
  abbrev pub InModels : Type 0
  InModels = (v : Valuation) → holds v s ≡ true → AreGraphs n (table v r) (table v x1) (table v x2)

  -- The second graph of a model is the first one permuted.
  abbrev pub Permuted : Valuation → Type 0
  Permuted v = IsPermutedBy n (table v r) (table v x1) (table v x2)

  -- On a valid solver, n by n matrices of references to its variables and the integer variables of
  -- a permutation, whose values in each model of the solver are two simple graphs and a permutation
  -- of n numbers, `isomorphic` succeeds. In its models the second graph has at (k, l) what the
  -- first has at (i, j) wherever the permutation sends k to i and l to j, and each model of the
  -- solver with that becomes one when the new variables get values.
  pub isomorphic-Encodes :
      Given n g1 g2 perm r x1 x2 s
      → g1.n_rows ≡ n
      → InModels
      → Returns (isomorphic g1 g2 perm s) λ s'. Encodes s s' Permuted Permuted
  unfolding isomorphic
  isomorphic-Encodes a size known =
      let above =
        upper_cells-each (Above n g1 g2 perm r x1 x2) n 0 n (omega arith) (λ i j lt lj. (lt, lj)) in
      let (s', run, step) =
        match_cells-Encodes n g1 g2 perm r x1 x2 (upper_cells 0 n n) s a above in
      (
        s',
        ap (λ m. match_cells g1 g2 perm m (upper_cells 0 m m) s) size ∙ run,
        record {
          valid = step.valid;
          grows = step.grows;
          ints_kept = step.ints_kept;
          sound = λ v held.
              let (held', q) = step.sound v held in
              (
                held',
                cells-IsPermutedBy n (table v r) (table v x1) (table v x2) (known v held')
                    (λ i j lt lj.
                      upper_cells-at (CellOnce n g1 g2 perm r x1 x2 v) n 0 n (omega arith) q i j
                        (omega arith) lt lj),
              );
          complete = λ v held iso. step.complete v held (
              upper_cells-each (CellOk n g1 g2 perm r x1 x2 v) n 0 n (omega arith)
                (IsPermutedBy-cells n (table v r) (table v x1) (table v x2) (known v held) iso));
        },
      )
