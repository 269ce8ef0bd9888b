-- ===== src/Matrix/Upper.antt =====
-- The cells above the diagonal, as the loops over them visit them.
use phd_thesis_src.Prelude.{
  ◌*◌, ◌∙◌, length, length-append, ℕ, zero, suc, ◌+◌, ◌-◌, ◌<◌, ◌≤◌, ◌==◌, ◌≡◌, subst, arith, All,
  All-append, All-split, Bool-cases, inl, inr,
}
use phd_thesis_src.Matrix.{row_cells, upper_cells, lower_cells}
use phd_thesis_src.Matrix.Cells.{length-row_cells}

module _ (P : ℕ × ℕ → Type 0) where
  row_cells-each : (i j k : ℕ) → ((b : ℕ) → j ≤ b → b < j + k → P (i, b)) → All P (row_cells i j k)
  unfolding row_cells
  row_cells-each i j zero h = tt
  row_cells-each i j (suc k) h = (
    h j (omega arith) (omega arith),
    row_cells-each i (suc j) k (λ b p q. h b (omega arith) (omega arith)),
  )

  row_cells-at : (i j k : ℕ) → All P (row_cells i j k) → (b : ℕ) → j ≤ b → b < j + k → P (i, b)
  unfolding row_cells
  row_cells-at i j zero h b p q = absurd (omega arith)
  row_cells-at i j (suc k) h b p q = elim (Bool-cases (j == b)) [
    | inl e ↦ let same : j ≡ b = ground arith in subst (λ c. P (i, c)) same h.0
    | inr e ↦
        let later : j < b = ground arith in
        row_cells-at i (suc j) k h.1 b (omega arith) (omega arith)
  ]

  -- What holds of every pair i < j holds of every cell that is visited, and the other way round.
  pub upper_cells-each :
      (n i r : ℕ) → i + r ≡ n → ((a b : ℕ) → a < b → b < n → P (a, b)) → All P (upper_cells i r n)
  unfolding upper_cells
  upper_cells-each n i zero e h = tt
  upper_cells-each n i (suc r) e h =
      All-append P (row_cells i (suc i) (n - suc i)) (upper_cells (suc i) r n)
        (row_cells-each i (suc i) (n - suc i) (λ b p q. h i b (omega arith) (omega arith)))
        (upper_cells-each n (suc i) r (omega arith) h)

  pub upper_cells-at :
      (n i r : ℕ)
      → i + r ≡ n
      → All P (upper_cells i r n)
      → (a b : ℕ) → i ≤ a
      → a < b
      → b < n
      → P (a, b)
  unfolding upper_cells
  upper_cells-at n i zero e h a b p q lt = absurd (omega arith)
  upper_cells-at n i (suc r) e h a b p q lt =
      let (here, later) =
        All-split P (row_cells i (suc i) (n - suc i)) (upper_cells (suc i) r n) h in
      elim (Bool-cases (i == a)) [
        | inl same ↦
            let at_i : i ≡ a = ground arith in
            subst (λ c. P (c, b)) at_i
              (row_cells-at i (suc i) (n - suc i) here b (omega arith) (omega arith))
        | inr other ↦
            let after : i < a = ground arith in
            upper_cells-at n (suc i) r (omega arith) later a b (omega arith) q lt
      ]

-- Twice the number of cells above and below the diagonal.
pub length-upper_cells : (n i r : ℕ) → i + r ≡ n → 2 * length (upper_cells i r n) + r ≡ r * r
unfolding upper_cells
length-upper_cells n i zero e = omega arith
length-upper_cells n i (suc r) e =
    let split = length-append (row_cells i (suc i) (n - suc i)) (upper_cells (suc i) r n) in
    let row : length (row_cells i (suc i) (n - suc i)) ≡ r =
      length-row_cells i (suc i) (n - suc i) ∙ omega arith in
    let rest = length-upper_cells n (suc i) r (omega arith) in grind (arith, split, row, rest)

pub length-lower_cells :
    (i r : ℕ) → 2 * length (lower_cells i r) + i * i + (i + r) ≡ (i + r) * (i + r) + i
unfolding lower_cells
length-lower_cells i zero = grind arith
length-lower_cells i (suc r) =
    let split = length-append (row_cells i 0 i) (lower_cells (suc i) r) in
    let row = length-row_cells i 0 i in
    let rest = length-lower_cells (suc i) r in grind (arith, split, row, rest)
