-- ===== src/Constraints/Graphs/Filled.antt =====
-- `newAdjMatrix`: the graph that the matrix stands for.
use phd_thesis_src.Prelude.{
  ltb, if◌then◌else◌, Bool-cases, subst, ℕ, ◌<◌, ◌≤◌, ◌≡◌, inl, inr, refl, sym, ap, ◌∙◌, true,
  false, not, pos, arith, some, Returns,
}
use phd_thesis_src.Sat.Semantics.{Valuation}
use phd_thesis_src.Matrix.{Matrix, entry, new_matrix}
use phd_thesis_src.Matrix.Cells.{IsFull}
use phd_thesis_src.Matrix.Writes.{new_matrix-IsFull, new_matrix-size}
use phd_thesis_src.Order.{Graph, IsGraph}
use phd_thesis_src.Constraints.{BoolVarRef, Solver, neg, true_const}
use phd_thesis_src.Constraints.Semantics.{ref_value, vars, holds, IsValid, ref_value_congr}
use phd_thesis_src.Constraints.Offers.{Offers}
use phd_thesis_src.Constraints.Graphs.{new_adj_matrix}
use phd_thesis_src.Constraints.Graphs.Row.{Cell}
use phd_thesis_src.Constraints.Graphs.Adjacency.{RowsResult, adj_rows-RowsResult}

-- The reference for the pair (i, j), given those above the diagonal.
abbrev mirrored : (ℕ → ℕ → BoolVarRef) → ℕ → ℕ → BoolVarRef
mirrored x i j = if ltb i j then x i j else (if ltb j i then x j i else neg true_const)

mirrored_rec :
    (P : ℕ → ℕ → BoolVarRef → Type 0) (x : ℕ → ℕ → BoolVarRef) (i j : ℕ)
    → (i < j → P i j (x i j))
    → (j < i → P i j (x j i))
    → (i ≡ j → P i j (neg true_const))
    → P i j (mirrored x i j)
mirrored_rec P x i j above below on = elim (Bool-cases (ltb i j)) [
  | inl e ↦ rw e (above (ground arith))
  | inr e ↦ elim (Bool-cases (ltb j i)) [
    | inl e' ↦ rw e (rw e' (below (ground arith)))
    | inr e' ↦ rw e (rw e' (on (ground arith)))
  ]
]

-- The cells of a matrix `g` with the references `x`.
pub record IsFilled (n : ℕ) (x : ℕ → ℕ → BoolVarRef) (r : Matrix BoolVarRef × Solver) : Type 0 where
  pub rows : r.0.n_rows ≡ n
  pub cols : r.0.n_cols ≡ n
  pub full : IsFull r.0
  pub cell : (i j : ℕ) → i < n → j < n → Cell (vars r.1) r.0 i j (x i j)

-- The graph of the values of the references.
abbrev graph_of : Valuation → (ℕ → ℕ → BoolVarRef) → Graph
graph_of v x i j = ref_value v (x i j)

-- Two graphs with the same edges between the first `n` vertices.
abbrev pub SameGraph : ℕ → Graph → Graph → Type 0
SameGraph n e f = (i j : ℕ) → i < n → j < n → e i j ≡ f i j

-- A matrix of references that stands for an arbitrary graph.
pub record AdjResult (n : ℕ) (s : Solver) (r : Matrix BoolVarRef × Solver) : Type 0 where
  pub x : ℕ → ℕ → BoolVarRef
  pub filled : IsFilled n x r
  pub offers :
      Offers s r.1 (IsGraph n) (λ w. SameGraph n (graph_of w x)) (λ w. IsGraph n (graph_of w x))

module _ (n : ℕ) (s : Solver) (g : Matrix BoolVarRef) (r : Matrix BoolVarRef × Solver)
    (a : RowsResult n 0 g s r) where
  Cell-mirrored : (i j : ℕ) → i < n → j < n → Cell (vars r.1) r.0 i j (mirrored a.x i j)
  Cell-mirrored i j p q =
      mirrored_rec (λ i j y. i < n → j < n → Cell (vars r.1) r.0 i j y) a.x i j
        (λ lt p q. a.upper i j (omega arith) lt q) (λ lt p q. a.lower j i (omega arith) lt p)
        (λ e p q. record {
          found =
              subst (λ c. entry r.0 i c ≡ some (neg true_const)) e (a.diagonal i (omega arith) p);
          ref = (omega arith, a.offers.valid.nonempty);
        })
        p q

  -- In a model the value of the diagonal is false.
  no_loops-mirrored :
      (v : Valuation) (i : ℕ) → holds v r.1 ≡ true → graph_of v (mirrored a.x) i i ≡ false
  no_loops-mirrored v i held =
      mirrored_rec (λ k j y. k ≡ j → ref_value v y ≡ false) a.x i i (λ lt e. absurd (omega arith))
        (λ lt e. absurd (omega arith)) (λ e e'. ap not (a.offers.valid.constant v held)) refl

  symmetric-mirrored :
      (v : Valuation) (i j : ℕ) → graph_of v (mirrored a.x) i j ≡ graph_of v (mirrored a.x) j i
  symmetric-mirrored v i j = elim (Bool-cases (ltb i j)) [
    | inl e ↦ let e' : ltb j i ≡ false = ground arith in rw (e, e') refl
    | inr e ↦ elim (Bool-cases (ltb j i)) [ inl e' ↦ rw (e, e') refl | inr e' ↦ rw (e, e') refl ]
  ]

  shown-mirrored :
      (w : Valuation) (e : Graph)
      → IsGraph n e
      → holds w r.1 ≡ true
      → ((a' b : ℕ) → 0 ≤ a' → a' < b → b < n → ref_value w (a.x a' b) ≡ e a' b)
      → SameGraph n (graph_of w (mirrored a.x)) e
  shown-mirrored w e graph held shown i j p q =
      mirrored_rec (λ i j y. i < n → j < n → ref_value w y ≡ e i j) a.x i j
        (λ lt p q. shown i j (omega arith) lt q)
        (λ lt p q. shown j i (omega arith) lt p ∙ graph.symmetric j i q p)
        (λ same p q.
          ap not (a.offers.valid.constant w held) ∙ sym (graph.no_loops i p) ∙ ap (e i) same)
        p q

  rows-AdjResult : n ≡ g.n_rows → n ≡ g.n_cols → AdjResult n s r
  rows-AdjResult er ec = record {
    x = mirrored a.x;
    filled = record {
      rows = a.rows ∙ sym er;
      cols = a.cols ∙ sym ec;
      full = a.full;
      cell = Cell-mirrored;
    };
    offers = record {
      valid = a.offers.valid;
      grows = a.offers.grows;
      ints_kept = a.offers.ints_kept;
      shows_congr = λ v w e agree shown i j p q.
          sym (ref_value_congr v w (mirrored a.x i j) agree (Cell-mirrored i j p q).ref)
          ∙ shown i j p q;
      sound = λ v held. (
        (a.offers.sound v held).0,
        record {
          no_loops = λ i lt. no_loops-mirrored v i held;
          symmetric = λ i j p q. symmetric-mirrored v i j;
        },
      );
      complete = λ v e held graph.
          let (w, agree, shown, held') = a.offers.complete v e held tt in
          (w, agree, shown-mirrored w e graph held' shown, held');
    };
  }

-- On a valid solver `newAdjMatrix` succeeds with a full n by n matrix. Its values are a simple
-- graph in each model, and each model of the solver becomes one with any simple graph on n
-- vertices.
pub new_adj_matrix-AdjResult :
    (n : ℕ) (s : Solver) → IsValid s → Returns (new_adj_matrix n s) (AdjResult n s)
unfolding new_adj_matrix
new_adj_matrix-AdjResult n s h =
    let g = new_matrix (pos 0) n n in
    let (er, ec) = new_matrix-size (pos 0) n n in
    let (r, run, a) =
      adj_rows-RowsResult n 0 n g s h (new_matrix-IsFull (pos 0) n n) (sym er) (sym ec)
        (omega arith) in
    (r, run, rows-AdjResult n s g r a er ec)
