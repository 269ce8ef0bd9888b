-- ===== src/Reducer/Adjacency.antt =====
-- The constructor of core/LexImplicationsReducer.cc: the numbers of the edges of all rows.
use phd_thesis_src.Prelude.{
  ℕ, zero, suc, ◌+◌, ◌-◌, ◌<◌, ◌≤◌, ◌==◌, ◌≡◌, refl, sym, ◌∙◌, subst, ℤ, pos, arith, some, Returns,
  Bool-cases, inl, inr, if◌then◌else◌,
}
use phd_thesis_src.Sat.Semantics.{Valuation}
use phd_thesis_src.Order.{Graph}
use phd_thesis_src.Matrix.{Matrix, entry}
use phd_thesis_src.Matrix.Cells.{IsFull}
use phd_thesis_src.Constraints.Semantics.{ref_value}
use phd_thesis_src.Reducer.Construct.{fill_rows}
use phd_thesis_src.Reducer.Row.{fill_row-RowFilled, patch, patch_here, patch_below}

-- The rows from `i` on of an `n` by `n` matrix have numbers, and these can stand for any graph.
pub record RowsFilled (n i : ℕ) (g : Matrix ℤ) (id : ℕ) (r : Matrix ℤ × ℕ) : Type 0 where
  pub grows : id ≤ r.1
  pub rows : r.0.n_rows ≡ g.n_rows
  pub cols : r.0.n_cols ≡ g.n_cols
  pub full : IsFull r.0
  pub x : ℕ → ℕ → ℕ
  pub ids : (a b : ℕ) → i ≤ a → a < b → b < n → (id ≤ x a b) × (x a b < r.1)
  pub upper : (a b : ℕ) → i ≤ a → a < b → b < n → entry r.0 a b ≡ some (pos (x a b))
  pub lower : (a b : ℕ) → i ≤ a → a < b → b < n → entry r.0 b a ≡ some (pos (x a b))
  pub kept : (a b : ℕ) → b < n → (i ≤ a → i ≤ b → ⊥) → entry r.0 a b ≡ entry g a b
  pub diagonal : (a : ℕ) → a < n → entry r.0 a a ≡ entry g a a
  pub shows :
      (e : Graph) (v : Valuation)
      → (w : Valuation) × ((q : ℕ) → suc q < id → v q ≡ w q)
        × ((a b : ℕ) → i ≤ a → a < b → b < n → ref_value w (pos (x a b)) ≡ e a b)

ref_value-agree :
    (v w : Valuation) (id m : ℕ)
    → ((q : ℕ) → suc q < id → v q ≡ w q)
    → m < id
    → ref_value v (pos m) ≡ ref_value w (pos m)
ref_value-agree v w id zero agree lt = refl
ref_value-agree v w id (suc k) agree lt = agree k lt

-- Row `i`, and the rows after it.
choose :
    (P : ℕ → ℕ → ℕ → Type 0) (i n : ℕ) (first : ℕ → ℕ) (x : ℕ → ℕ → ℕ)
    → ((b : ℕ) → i < b → b < n → P i b (first b))
    → ((a b : ℕ) → suc i ≤ a → a < b → b < n → P a b (x a b))
    → (a b : ℕ) → i ≤ a
    → a < b
    → b < n
    → P a b (if a == i then first b else x a b)
choose P i n first x here there a b p q l = elim (Bool-cases (a == i)) [
  | inl e ↦
      let same : i ≡ a = ground arith in
      rw e (subst (λ c. P c b (first b)) same (here b (omega arith) l))
  | inr e ↦ rw e (there a b (ground arith) q l)
]

pub fill_rows-RowsFilled :
    (n i k : ℕ) (g : Matrix ℤ) (id : ℕ)
    → IsFull g
    → g.n_rows ≡ n
    → g.n_cols ≡ n
    → i + k ≡ n
    → 0 < id
    → Returns (fill_rows n i k g id) (RowsFilled n i g id)
unfolding fill_rows
fill_rows-RowsFilled n i zero g id full rows cols e h = (
  (g, id),
  refl,
  record {
    grows = omega arith;
    rows = refl;
    cols = refl;
    full = full;
    x = λ a b. id;
    ids = λ a b p q r. absurd (omega arith);
    upper = λ a b p q r. absurd (omega arith);
    lower = λ a b p q r. absurd (omega arith);
    kept = λ a b lt p. refl;
    diagonal = λ a lt. refl;
    shows = λ f v. (v, λ q lt. refl, λ a b p q r. absurd (omega arith));
  },
)
fill_rows-RowsFilled n i (suc k) g id full rows cols e h =
    let (u, run₁, row) =
      fill_row-RowFilled i (suc i) (n - suc i) n g id full rows cols (omega arith) (omega arith) in
    let (r, run, rest) =
      fill_rows-RowsFilled n (suc i) k u.0 u.1 row.full (omega (arith, row.rows))
        (omega (arith, row.cols)) (omega arith) (omega (arith, row.next)) in
    let first = λ (b : ℕ). id + (b - suc i) in
    let x = λ (a b : ℕ). if a == i then first b else rest.x a b in
    let upper_here : (b : ℕ) → i < b → b < n → entry r.0 i b ≡ some (pos (first b)) = λ b p l.
      rest.kept i b l (λ c d. absurd (omega arith)) ∙ row.upper b (omega arith) (omega arith) in
    let lower_here : (b : ℕ) → i < b → b < n → entry r.0 b i ≡ some (pos (first b)) = λ b p l.
      rest.kept b i (omega arith) (λ c d. absurd (omega arith))
      ∙ row.lower b (omega arith) (omega arith) in
    (
      r,
      rw run₁ run,
      record {
        grows = omega (arith, rest.grows, row.next);
        rows = rest.rows ∙ row.rows;
        cols = rest.cols ∙ row.cols;
        full = rest.full;
        x = x;
        ids =
            choose (λ a b t. (id ≤ t) × (t < r.1)) i n first rest.x
              (λ b p l. omega (arith, rest.grows, row.next))
              (λ a b p q l. omega (arith, rest.ids a b p q l, row.next));
        upper =
            choose (λ a b t. entry r.0 a b ≡ some (pos t)) i n first rest.x upper_here rest.upper;
        lower =
            choose (λ a b t. entry r.0 b a ≡ some (pos t)) i n first rest.x lower_here rest.lower;
        kept = λ a b lb p.
            rest.kept a b lb (λ c d. p (omega arith) (omega arith))
            ∙ row.kept a b (omega arith) (λ c d. p (omega arith) (omega arith))
                (λ c d. p (omega arith) (omega arith));
        diagonal = λ a lt.
            rest.diagonal a lt
            ∙ row.kept a a (omega arith) (λ c d. absurd (omega arith))
                (λ c d. absurd (omega arith));
        shows = λ f v.
            let k' = n - suc i in
            let v' = patch id k' (suc i) (f i) v in
            let (w, agree, shown) = rest.shows f v' in
            (
              w,
              λ q lt. patch_below id k' (suc i) q (f i) v lt ∙ agree q (omega (arith, row.next)),
              choose (λ a b t. ref_value w (pos t) ≡ f a b) i n first rest.x
                  (λ b p l.
                    let number = id + (b - suc i) in
                    sym (ref_value-agree v' w u.1 number agree (omega (arith, row.next)))
                    ∙ patch_here id k' (suc i) b (f i) v h (omega arith) (omega arith))
                  shown,
            );
      },
    )
