-- ===== src/Reducer/Numbering.antt =====
-- The matrix of the constructor of core/LexImplicationsReducer.cc as a table of references.
use phd_thesis_src.Prelude.{
  ℕ, ◌-◌, ◌<◌, ltb, ◌≡◌, ◌≢◌, sym, ◌∙◌, false, ℤ, pos, some, arith, Returns, Bool-cases, inl, inr,
}
use phd_thesis_src.Sat.Semantics.{Valuation}
use phd_thesis_src.Order.{Graph, IsGraph}
use phd_thesis_src.Matrix.{Matrix, new_matrix, entry}
use phd_thesis_src.Matrix.Writes.{new_matrix-IsFull, new_matrix-size, new_matrix-entry}
use phd_thesis_src.Matrix.Values.{value_at, entry-value_at, value_at-entry}
use phd_thesis_src.Matrix.Strings.{IsTable}
use phd_thesis_src.Constraints.Semantics.{ref_value, IsRef}
use phd_thesis_src.Reducer.Construct.{fill_rows}
use phd_thesis_src.Reducer.Adjacency.{RowsFilled, fill_rows-RowsFilled}

-- An n by n matrix whose cells off the diagonal have numbers up to `m`, which can stand for any
-- graph on n vertices.
pub record IsNumbering (n m : ℕ) (g : Matrix ℤ) : Type 0 where
  pub x : ℕ → ℕ → ℤ
  pub table : IsTable n g x
  pub refs : (i j : ℕ) → i < n → j < n → i ≢ j → IsRef m (x i j)
  pub zeros : (i : ℕ) → i < n → x i i ≡ pos 0
  pub shows :
      (e : Graph)
      → IsGraph n e
      → (v : Valuation) × ((i j : ℕ) → i < n → j < n → i ≢ j → ref_value v (x i j) ≡ e i j)

module _ (n : ℕ) (g : Matrix ℤ) (r : Matrix ℤ × ℕ) (f : RowsFilled n 0 g 1 r) (er : g.n_rows ≡ n)
    (ec : g.n_cols ≡ n) (blank : (i : ℕ) → i < n → entry g i i ≡ some (pos 0)) where
  -- The cells off the diagonal, by the one above it.
  off_diagonal :
      (P : ℕ → ℕ → ℤ → Type 0)
      → ((a b : ℕ) → a < b → b < n → P a b (pos (f.x a b)))
      → ((a b : ℕ) → a < b → b < n → P b a (pos (f.x a b)))
      → (i j : ℕ) → i < n
      → j < n
      → i ≢ j
      → P i j (value_at r.0 i j)
  off_diagonal P above below i j p q ne =
      let p' : i < r.0.n_rows = omega (arith, f.rows) in
      let q' : j < r.0.n_cols = omega (arith, f.cols) in
      elim (Bool-cases (ltb i j)) [
        | inl e ↦
            let lt : i < j = ground arith in
            rw
              (value_at-entry r.0 i j (pos (f.x i j)) f.full p' q' (f.upper i j (omega arith) lt q))
              (above i j lt q)
        | inr e ↦
            let lt : j < i = ground arith in
            rw
              (value_at-entry r.0 i j (pos (f.x j i)) f.full p' q' (f.lower j i (omega arith) lt p))
              (below j i lt p)
      ]

  RowsFilled-IsNumbering : IsNumbering n (r.1 - 1) r.0
  RowsFilled-IsNumbering = record {
    x = value_at r.0;
    table = record {
      rows = f.rows ∙ er;
      cols = f.cols ∙ ec;
      square = (f.rows ∙ er ∙ sym (f.cols ∙ ec), f.full);
      cells =
          λ i j p q. entry-value_at r.0 i j f.full (omega (arith, f.rows)) (omega (arith, f.cols));
    };
    refs =
        off_diagonal (λ i j t. IsRef (r.1 - 1) t)
          (λ a b lt l. omega (arith, f.ids a b (omega arith) lt l))
          (λ a b lt l. omega (arith, f.ids a b (omega arith) lt l));
    zeros = λ i p.
        value_at-entry r.0 i i (pos 0) f.full (omega (arith, f.rows)) (omega (arith, f.cols))
          (f.diagonal i p ∙ blank i p);
    shows = λ e graph.
        let (w, _, shown) = f.shows e (λ q. false) in
        (
          w,
          off_diagonal (λ i j t. ref_value w t ≡ e i j) (λ a b lt l. shown a b (omega arith) lt l)
              (λ a b lt l. shown a b (omega arith) lt l ∙ graph.symmetric a b (omega arith) l),
        );
  }

-- The constructor's loops never write outside the matrix, and number the pairs of vertices.
pub fill_rows-IsNumbering :
    (n : ℕ)
    → Returns
        (fill_rows n 0 n (new_matrix (pos 0) n n) 1)
        λ r. (0 < r.1) × IsNumbering n (r.1 - 1) r.0
fill_rows-IsNumbering n =
    let g = new_matrix (pos 0) n n in
    let (er, ec) = new_matrix-size (pos 0) n n in
    let (r, run, f) =
      fill_rows-RowsFilled n 0 n g 1 (new_matrix-IsFull (pos 0) n n) (sym er) (sym ec) (omega arith)
        (omega arith) in
    (
      r,
      run,
      (
        omega (arith, f.grows),
        RowsFilled-IsNumbering n g r f (sym er) (sym ec)
            (λ i p. new_matrix-entry (pos 0) n n i i p p),
      ),
    )
