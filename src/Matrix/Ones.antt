-- ===== src/Matrix/Ones.antt =====
-- The ones of a table of truth values, in the order of the cells.
use phd_thesis_src.Prelude.{
  ℕ, zero, suc, ◌+◌, ◌-◌, ◌≡◌, refl, ap, ap₂, ◌∙◌, Bool, arith, List, [], ◌∷◌, ◌++◌,
}
use phd_thesis_src.Order.Sums.{sum, one}
use phd_thesis_src.Matrix.{row_cells, upper_cells, lower_cells}
use phd_thesis_src.Matrix.Strings.{at_cells}
use phd_thesis_src.Constraints.Ints.Single.{ones}
use phd_thesis_src.Constraints.Graphs.Tally.{ones-append}

at_cells-append :
    (e : ℕ → ℕ → Bool) (cs ds : List (ℕ × ℕ))
    → at_cells e (cs ++ ds) ≡ at_cells e cs ++ at_cells e ds
at_cells-append e [] ds = refl
at_cells-append e (c ∷ cs) ds = ap (λ t. e c.0 c.1 ∷ t) (at_cells-append e cs ds)

module _ (e : ℕ → ℕ → Bool) where
  -- The ones of a row from column `j` on.
  abbrev pub row : ℕ → ℕ → ℕ → ℕ
  row i j k = sum (λ b. one (e i b)) j k

  ones-row_cells : (i j k : ℕ) → ones (at_cells e (row_cells i j k)) ≡ row i j k
  unfolding row_cells
  ones-row_cells i j zero = refl
  ones-row_cells i j (suc k) = ground (arith, ones-row_cells i (suc j) k)

  pub ones-upper_cells :
      (n i r : ℕ) → ones (at_cells e (upper_cells i r n)) ≡ sum (λ a. row a (suc a) (n - suc a)) i r
  unfolding upper_cells
  ones-upper_cells n i zero = refl
  ones-upper_cells n i (suc r) =
      let here = row_cells i (suc i) (n - suc i) in
      ap ones (at_cells-append e here (upper_cells (suc i) r n))
      ∙ ones-append (at_cells e here) (at_cells e (upper_cells (suc i) r n))
      ∙ ap₂ (λ a b. a + b) (ones-row_cells i (suc i) (n - suc i)) (ones-upper_cells n (suc i) r)

  pub ones-lower_cells : (i r : ℕ) → ones (at_cells e (lower_cells i r)) ≡ sum (λ a. row a 0 a) i r
  unfolding lower_cells
  ones-lower_cells i zero = refl
  ones-lower_cells i (suc r) =
      let here = row_cells i 0 i in
      ap ones (at_cells-append e here (lower_cells (suc i) r))
      ∙ ones-append (at_cells e here) (at_cells e (lower_cells (suc i) r))
      ∙ ap₂ (λ a b. a + b) (ones-row_cells i 0 i) (ones-lower_cells (suc i) r)
