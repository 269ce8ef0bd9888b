-- ===== src/Reducer/Row.antt =====
-- The constructor of core/LexImplicationsReducer.cc: the numbers of the edges.
use phd_thesis_src.Prelude.{
  ℕ, zero, suc, ◌+◌, ◌-◌, ◌<◌, ◌≤◌, ◌==◌, leb, ltb, ◌≡◌, refl, sym, ap, ◌∙◌, subst, Bool, true,
  false, ◌&&◌, ℤ, pos, arith, some, Returns, Bool-cases, inl, inr, if◌then◌else◌,
}
use phd_thesis_src.Sat.Semantics.{Valuation}
use phd_thesis_src.Matrix.{Matrix, entry}
use phd_thesis_src.Matrix.Cells.{IsFull}
use phd_thesis_src.Matrix.Writes.{set-Written}
use phd_thesis_src.Constraints.Semantics.{ref_value}
use phd_thesis_src.Reducer.Construct.{fill_row}

-- Columns `j` to `j + k` of row `i`, and the cells that mirror them, have the numbers from `id` on.
pub record RowFilled (i j k : ℕ) (g : Matrix ℤ) (id : ℕ) (r : Matrix ℤ × ℕ) : Type 0 where
  pub next : r.1 ≡ id + k
  pub rows : r.0.n_rows ≡ g.n_rows
  pub cols : r.0.n_cols ≡ g.n_cols
  pub full : IsFull r.0
  pub upper : (b : ℕ) → j ≤ b → b < j + k → entry r.0 i b ≡ some (pos (id + (b - j)))
  pub lower : (b : ℕ) → j ≤ b → b < j + k → entry r.0 b i ≡ some (pos (id + (b - j)))
  pub kept :
      (a b : ℕ)
      → b < g.n_cols
      → (a ≡ i → j ≤ b → ⊥)
      → (b ≡ i → j ≤ a → ⊥)
      → entry r.0 a b ≡ entry g a b

-- A cell with the first number, and the cells after it.
from_first :
    (j k id : ℕ) (P : ℕ → ℕ → Type 0)
    → P j id
    → ((b : ℕ) → suc j ≤ b → b < suc j + k → P b (suc id + (b - suc j)))
    → (b : ℕ) → j ≤ b
    → b < j + suc k
    → P b (id + (b - j))
from_first j k id P first rest b p q = elim (Bool-cases (b == j)) [
  | inl e ↦
      let same : j ≡ b = ground arith in
      let start : id ≡ id + (j - j) = omega arith in
      subst (λ c. P c (id + (c - j))) same (subst (P j) start first)
  | inr e ↦
      let after : suc j ≤ b = ground arith in
      let number : suc id + (b - suc j) ≡ id + (b - j) = omega arith in
      subst (P b) number (rest b after (omega arith))
]

pub fill_row-RowFilled :
    (i j k m : ℕ) (g : Matrix ℤ) (id : ℕ)
    → IsFull g
    → g.n_rows ≡ m
    → g.n_cols ≡ m
    → i < j
    → j + k ≡ m
    → Returns (fill_row i j k g id) (RowFilled i j k g id)
unfolding fill_row
fill_row-RowFilled i j zero m g id full rows cols lt e = (
  (g, id),
  refl,
  record {
    next = omega arith;
    rows = refl;
    cols = refl;
    full = full;
    upper = λ b p q. absurd (omega arith);
    lower = λ b p q. absurd (omega arith);
    kept = λ a b l p q. refl;
  },
)
fill_row-RowFilled i j (suc k) m g id full rows cols lt e =
    let (g₁, run₁, w₁) = set-Written g i j (pos id) full (omega arith) (omega arith) in
    let (g₂, run₂, w₂) =
      set-Written g₁ j i (pos id) w₁.full (omega (arith, w₁.rows)) (omega (arith, w₁.cols)) in
    let (r, run, rest) =
      fill_row-RowFilled i (suc j) k m g₂ (suc id) w₂.full (omega (arith, w₁.rows, w₂.rows))
        (omega (arith, w₁.cols, w₂.cols)) (omega arith) (omega arith) in
    let wide : g₂.n_cols ≡ m = omega (arith, w₁.cols, w₂.cols) in
    let wide₁ : g₁.n_cols ≡ m = omega (arith, w₁.cols) in
    let above : entry r.0 i j ≡ some (pos id) =
      rest.kept i j (omega arith) (λ p q. absurd (omega arith)) (λ p q. absurd (omega arith))
      ∙ w₂.elsewhere i j (omega arith) (λ p q. absurd (omega arith))
      ∙ w₁.here in
    let below : entry r.0 j i ≡ some (pos id) =
      rest.kept j i (omega arith) (λ p q. absurd (omega arith)) (λ p q. absurd (omega arith))
      ∙ w₂.here in
    (
      r,
      rw run₁ (rw run₂ run),
      record {
        next = omega (arith, rest.next);
        rows = rest.rows ∙ w₂.rows ∙ w₁.rows;
        cols = rest.cols ∙ w₂.cols ∙ w₁.cols;
        full = rest.full;
        upper = from_first j k id (λ c t. entry r.0 i c ≡ some (pos t)) above rest.upper;
        lower = from_first j k id (λ c t. entry r.0 c i ≡ some (pos t)) below rest.lower;
        kept = λ a b lb p q.
            rest.kept a b (omega arith) (λ c d. p c (omega arith)) (λ c d. q c (omega arith))
            ∙ w₂.elsewhere a b (omega arith) (λ c d. q (sym d) (omega arith))
            ∙ w₁.elsewhere a b lb (λ c d. p (sym c) (omega arith));
      },
    )

ref_value-pos : (v : Valuation) (m : ℕ) → 0 < m → ref_value v (pos m) ≡ v (m - 1)
ref_value-pos v zero h = absurd (omega arith)
ref_value-pos v (suc k) h = let e : suc k - 1 ≡ k = omega arith in rw e refl

-- The numbers from `id` on stand for f j, f (j + 1), and so on.
abbrev pub patch : ℕ → ℕ → ℕ → (ℕ → Bool) → Valuation → Valuation
patch id k j f v q = if leb id (suc q) && ltb (suc q) (id + k) then f (j + (suc q - id)) else v q

pub patch_here :
    (id k j b : ℕ) (f : ℕ → Bool) (v : Valuation)
    → 0 < id
    → j ≤ b
    → b < j + k
    → ref_value (patch id k j f v) (pos (id + (b - j))) ≡ f b
patch_here id k j b f v h p q =
    let m = id + (b - j) in
    let one : suc (m - 1) ≡ m = omega arith in
    let low : leb id (suc (m - 1)) ≡ true = ground arith in
    let high : ltb (suc (m - 1)) (id + k) ≡ true = ground arith in
    let back : j + (suc (m - 1) - id) ≡ b = omega arith in
    ref_value-pos (patch id k j f v) m (omega arith) ∙ rw (low, high) (ap f back)

pub patch_below :
    (id k j q : ℕ) (f : ℕ → Bool) (v : Valuation) → suc q < id → v q ≡ patch id k j f v q
patch_below id k j q f v lt = let low : leb id (suc q) ≡ false = ground arith in rw low refl
