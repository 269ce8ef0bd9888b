-- ===== src/Constraints/Graphs/Row.antt =====
-- The inner loop of `newAdjMatrix`: one row of variables, and the column that mirrors it.
use phd_thesis_src.Prelude.{
  ◌==◌, if◌then◌else◌, Bool-cases, subst, ℕ, zero, suc, ◌+◌, ◌<◌, ◌≤◌, ◌≡◌, ◌≢◌, inl, inr, refl,
  sym, ◌∙◌, Bool, [], ◌∷◌, arith, some, Returns,
}
use phd_thesis_src.Sat.Semantics.{Valuation}
use phd_thesis_src.Matrix.{Matrix, entry}
use phd_thesis_src.Matrix.Cells.{IsFull}
use phd_thesis_src.Matrix.Writes.{set-Written}
use phd_thesis_src.Order.{Graph}
use phd_thesis_src.Constraints.{BoolVarRef, Solver, true_const, new_bool_var, new_bool_vars}
use phd_thesis_src.Constraints.Semantics.{
  ref_value, IsRef, IsRef-mono, vars, IsValid, ref_value_congr,
}
use phd_thesis_src.Constraints.Encodes.{Always}
use phd_thesis_src.Constraints.Fresh.{IsRef-new_bool_var, IsValid-new_bool_var}
use phd_thesis_src.Constraints.Offers.{Offers, Offers_pair, Offers_map, new_bool_vars-Offers}
use phd_thesis_src.Constraints.Graphs.{adj_row}

-- A cell that is there, with a reference to a variable.
pub record Cell (n : ℕ) (g : Matrix BoolVarRef) (i j : ℕ) (x : BoolVarRef) : Type 0 where
  pub found : entry g i j ≡ some x
  pub ref : IsRef n x

abbrev Chosen : (BoolVarRef) → Valuation → Bool → Type 0
Chosen x w b = ref_value w x ≡ b

-- A fresh variable shows either value.
one_var-Offers :
    (s : Solver)
    → IsValid s
    → Offers s (new_bool_var s).1 {C = Bool} (λ b. Unit {0}) (Chosen (new_bool_var s).0) Always
unfolding new_bool_vars
one_var-Offers s h =
    let step = new_bool_vars-Offers 1 s h in
    Offers_map (λ b. b ∷ []) step (λ b okay. refl) (λ v b okay shown. ground arith)
      (λ v w b agree shown.
        sym (ref_value_congr v w (new_bool_var s).0 agree (IsRef-new_bool_var s h)) ∙ shown)
      (λ v q. q)

-- A function changed at one number.
pub pick :
    (P : ℕ → BoolVarRef → Type 0) (j b : ℕ) (t : BoolVarRef) (f : ℕ → BoolVarRef)
    → P j t
    → (b ≢ j → P b (f b))
    → P b (if b == j then t else f b)
pick P j b t f here there = elim (Bool-cases (b == j)) [
  | inl e ↦ let same : j ≡ b = ground arith in rw e (subst (λ c. P c t) same here)
  | inr e ↦ rw e (there (ground arith))
]

-- Columns `j` to `m` of row `i` are filled.
pub record RowResult (i j m : ℕ) (g : Matrix BoolVarRef) (s : Solver)
    (r : Matrix BoolVarRef × Solver) : Type 0 where
  pub rows : r.0.n_rows ≡ g.n_rows
  pub cols : r.0.n_cols ≡ g.n_cols
  pub full : IsFull r.0
  pub x : ℕ → BoolVarRef
  pub upper : (b : ℕ) → j ≤ b → b < m → Cell (vars r.1) r.0 i b (x b)
  pub lower : (b : ℕ) → j ≤ b → b < m → Cell (vars r.1) r.0 b i (x b)
  pub kept :
      (a b : ℕ)
      → b < g.n_cols
      → (a ≡ i → j ≤ b → ⊥)
      → (b ≡ i → j ≤ a → ⊥)
      → entry r.0 a b ≡ entry g a b
  pub offers :
      Offers s r.1 {C = Graph}
        (λ e. Unit {0})
        (λ w e. (b : ℕ) → j ≤ b → b < m → ref_value w (x b) ≡ e i b)
        Always

pub adj_row-RowResult :
    (i j k m : ℕ) (g : Matrix BoolVarRef) (s : Solver)
    → IsValid s
    → IsFull g
    → g.n_rows ≡ m
    → g.n_cols ≡ m
    → i < j
    → j + k ≡ m
    → Returns (adj_row i j k g s) (RowResult i j m g s)
unfolding adj_row
adj_row-RowResult i j zero m g s h full rows cols lt e = (
  (g, s),
  refl,
  record {
    rows = refl;
    cols = refl;
    full = full;
    x = λ b. true_const;
    upper = λ b p q. absurd (omega arith);
    lower = λ b p q. absurd (omega arith);
    kept = λ a b r p q. refl;
    offers = record {
      valid = h;
      grows = omega arith;
      ints_kept = λ a x e. e;
      shows_congr = λ v w c agree shown b p q. absurd (omega arith);
      sound = λ v t. (t, tt);
      complete = λ v c t okay. (v, λ a l. refl, λ b p q. absurd (omega arith), t);
    };
  },
)
adj_row-RowResult i j (suc k) m g s h full rows cols lt e =
    let t = (new_bool_var s).0 in
    let s₁ = (new_bool_var s).1 in
    let (g₁, run₁, w₁) = set-Written g i j t full (omega arith) (omega arith) in
    let (g₂, run₂, w₂) =
      set-Written g₁ j i t w₁.full (omega (arith, w₁.rows)) (omega (arith, w₁.cols)) in
    let (r, run, rest) =
      adj_row-RowResult i (suc j) k m g₂ s₁ (IsValid-new_bool_var s h) w₂.full
        (omega (arith, w₁.rows, w₂.rows)) (omega (arith, w₁.cols, w₂.cols)) (omega arith)
        (omega arith) in
    let wide : g₂.n_cols ≡ m = omega (arith, w₁.cols, w₂.cols) in
    let wide₁ : g₁.n_cols ≡ m = omega (arith, w₁.cols) in
    let ref = IsRef-mono t rest.offers.grows (IsRef-new_bool_var s h) in
    let above : entry r.0 i j ≡ some t =
      rest.kept i j (omega arith) (λ p q. absurd (omega arith)) (λ p q. absurd (omega arith))
      ∙ w₂.elsewhere i j (omega arith) (λ p q. absurd (omega arith))
      ∙ w₁.here in
    let below : entry r.0 j i ≡ some t =
      rest.kept j i (omega arith) (λ p q. absurd (omega arith)) (λ p q. absurd (omega arith))
      ∙ w₂.here in
    let x = λ (b : ℕ). if b == j then t else rest.x b in
    let upper = λ (b : ℕ) (p : j ≤ b) (q : b < m).
      pick (λ c y. Cell (vars r.1) r.0 i c y) j b t rest.x (record { found = above; ref = ref })
        (λ ne. rest.upper b (omega arith) q) in
    (
      r,
      rw run₁ (rw run₂ run),
      record {
        rows = rest.rows ∙ w₂.rows ∙ w₁.rows;
        cols = rest.cols ∙ w₂.cols ∙ w₁.cols;
        full = rest.full;
        x = x;
        upper = upper;
        lower = λ b p q.
            pick (λ c y. Cell (vars r.1) r.0 c i y) j b t rest.x
              (record { found = below; ref = ref }) (λ ne. rest.lower b (omega arith) q);
        kept = λ a b lb p q.
            rest.kept a b (omega arith) (λ c d. p c (omega arith)) (λ c d. q c (omega arith))
            ∙ w₂.elsewhere a b (omega arith) (λ c d. q (sym d) (omega arith))
            ∙ w₁.elsewhere a b lb (λ c d. p (sym c) (omega arith));
        offers =
            Offers_map (λ f. (f i j, f)) (Offers_pair (one_var-Offers s h) rest.offers)
              (λ f okay. (tt, tt))
              (λ w f okay shown b p q.
                pick (λ c y. ref_value w y ≡ f i c) j b t rest.x shown.0
                  (λ ne. shown.1 b (omega arith) q))
              (λ v w f agree shown b p q.
                sym (ref_value_congr v w (x b) agree (upper b p q).ref) ∙ shown b p q)
              (λ v q. tt);
      },
    )
