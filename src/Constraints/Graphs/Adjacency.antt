-- ===== src/Constraints/Graphs/Adjacency.antt =====
-- `newAdjMatrix`: the variables of a simple graph.
use phd_thesis_src.Prelude.{
  ◌==◌, if◌then◌else◌, Bool-cases, subst, ℕ, zero, suc, ◌+◌, ◌-◌, ◌<◌, ◌≤◌, ◌≡◌, inl, inr, refl,
  sym, ◌∙◌, arith, some, Returns,
}
use phd_thesis_src.Matrix.{Matrix, entry}
use phd_thesis_src.Matrix.Cells.{IsFull}
use phd_thesis_src.Matrix.Writes.{set-Written}
use phd_thesis_src.Order.{Graph}
use phd_thesis_src.Constraints.{BoolVarRef, Solver, neg, true_const}
use phd_thesis_src.Constraints.Semantics.{ref_value, IsRef-mono, vars, IsValid, ref_value_congr}
use phd_thesis_src.Constraints.Encodes.{Always}
use phd_thesis_src.Constraints.Offers.{Offers, Offers_pair, Offers_map}
use phd_thesis_src.Constraints.Graphs.{adj_rows}
use phd_thesis_src.Constraints.Graphs.Row.{Cell, adj_row-RowResult, pick}

-- The rows from `i` on of an `n` by `n` matrix are filled.
pub record RowsResult (n i : ℕ) (g : Matrix BoolVarRef) (s : Solver)
    (r : Matrix BoolVarRef × Solver) : Type 0 where
  pub rows : r.0.n_rows ≡ g.n_rows
  pub cols : r.0.n_cols ≡ g.n_cols
  pub full : IsFull r.0
  pub x : ℕ → ℕ → BoolVarRef
  pub diagonal : (a : ℕ) → i ≤ a → a < n → entry r.0 a a ≡ some (neg true_const)
  pub upper : (a b : ℕ) → i ≤ a → a < b → b < n → Cell (vars r.1) r.0 a b (x a b)
  pub lower : (a b : ℕ) → i ≤ a → a < b → b < n → Cell (vars r.1) r.0 b a (x a b)
  pub kept : (a b : ℕ) → b < n → (i ≤ a → i ≤ b → ⊥) → entry r.0 a b ≡ entry g a b
  pub offers :
      Offers s r.1 {C = Graph}
        (λ e. Unit {0})
        (λ w e. (a b : ℕ) → i ≤ a → a < b → b < n → ref_value w (x a b) ≡ e a b)
        Always

-- A cell of a row that is done keeps its reference.
earlier :
    {n m : ℕ} {g r : Matrix BoolVarRef} (a b : ℕ) (x : BoolVarRef)
    → n ≤ m
    → entry r a b ≡ entry g a b
    → Cell n g a b x
    → Cell m r a b x
earlier a b x grows same cell = record {
  found = same ∙ cell.found;
  ref = IsRef-mono x grows cell.ref;
}

pub adj_rows-RowsResult :
    (n i k : ℕ) (g : Matrix BoolVarRef) (s : Solver)
    → IsValid s
    → IsFull g
    → g.n_rows ≡ n
    → g.n_cols ≡ n
    → i + k ≡ n
    → Returns (adj_rows n i k g s) (RowsResult n i g s)
unfolding adj_rows
adj_rows-RowsResult n i zero g s h full rows cols e = (
  (g, s),
  refl,
  record {
    rows = refl;
    cols = refl;
    full = full;
    x = λ a b. true_const;
    diagonal = λ a p q. absurd (omega arith);
    upper = λ a b p q r. absurd (omega arith);
    lower = λ a b p q r. absurd (omega arith);
    kept = λ a b lt p. refl;
    offers = record {
      valid = h;
      grows = omega arith;
      ints_kept = λ a x e. e;
      shows_congr = λ v w c agree shown a b p q r. absurd (omega arith);
      sound = λ v t. (t, tt);
      complete = λ v c t okay. (v, λ a l. refl, λ a b p q r. absurd (omega arith), t);
    };
  },
)
adj_rows-RowsResult n i (suc k) g s h full rows cols e =
    let (g₁, run₁, w₁) = set-Written g i i (neg true_const) full (omega arith) (omega arith) in
    let (u, run₂, row) =
      adj_row-RowResult i (suc i) (n - suc i) n g₁ s h w₁.full (omega (arith, w₁.rows))
        (omega (arith, w₁.cols)) (omega arith) (omega arith) in
    let (r, run, rest) =
      adj_rows-RowsResult n (suc i) k u.0 u.1 row.offers.valid row.full
        (omega (arith, row.rows, w₁.rows)) (omega (arith, row.cols, w₁.cols)) (omega arith) in
    let wide : g₁.n_cols ≡ n = omega (arith, w₁.cols) in
    let x = λ (a b : ℕ). if a == i then row.x b else rest.x a b in
    let upper_here = λ (b : ℕ) (q : i < b) (lb : b < n).
      earlier i b (row.x b) rest.offers.grows (rest.kept i b lb (λ c d. absurd (omega arith)))
        (row.upper b (omega arith) lb) in
    let lower_here = λ (b : ℕ) (q : i < b) (lb : b < n).
      earlier b i (row.x b) rest.offers.grows
        (rest.kept b i (omega arith) (λ c d. absurd (omega arith)))
        (row.lower b (omega arith) lb) in
    let upper = λ (a b : ℕ) (p : i ≤ a) (q : a < b) (lb : b < n).
      pick (λ c y. (c < b) → Cell (vars r.1) r.0 c b y) i a (row.x b) (λ c. rest.x c b)
        (λ lt. upper_here b lt lb) (λ ne lt. rest.upper a b (omega arith) lt lb) q in
    let diagonal_here : entry r.0 i i ≡ some (neg true_const) =
      rest.kept i i (omega arith) (λ c d. absurd (omega arith))
      ∙ row.kept i i (omega arith) (λ c d. absurd (omega arith)) (λ c d. absurd (omega arith))
      ∙ w₁.here in
    (
      r,
      rw run₁ (rw run₂ run),
      record {
        rows = rest.rows ∙ row.rows ∙ w₁.rows;
        cols = rest.cols ∙ row.cols ∙ w₁.cols;
        full = rest.full;
        x = x;
        diagonal = λ a p q. elim (Bool-cases (a == i)) [
          | inl same ↦
              let at_i : i ≡ a = ground arith in
              subst (λ c. entry r.0 c c ≡ some (neg true_const)) at_i diagonal_here
          | inr other ↦ rest.diagonal a (ground arith) q
        ];
        upper = upper;
        lower = λ a b p q lb.
            pick (λ c y. (c < b) → Cell (vars r.1) r.0 b c y) i a (row.x b) (λ c. rest.x c b)
              (λ lt. lower_here b lt lb) (λ ne lt. rest.lower a b (omega arith) lt lb) q;
        kept = λ a b lb p.
            rest.kept a b lb (λ c d. p (omega arith) (omega arith))
            ∙ row.kept a b (omega arith) (λ c d. p (omega arith) (omega arith))
                (λ c d. p (omega arith) (omega arith))
            ∙ w₁.elsewhere a b (omega arith) (λ c d. p (omega arith) (omega arith));
        offers =
            Offers_map (λ f. (f, f)) (Offers_pair row.offers rest.offers) (λ f okay. (tt, tt))
              (λ w f okay shown a b p q lb.
                pick (λ c y. (c < b) → ref_value w y ≡ f c b) i a (row.x b) (λ c. rest.x c b)
                  (λ lt. shown.0 b (omega arith) lb) (λ ne lt. shown.1 a b (omega arith) lt lb) q)
              (λ v w f agree shown a b p q lb.
                sym (ref_value_congr v w (x a b) agree (upper a b p q lb).ref) ∙ shown a b p q lb)
              (λ v q. tt);
      },
    )
