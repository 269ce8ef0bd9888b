-- ===== src/Matrix/Values.antt =====
-- The elements of a full matrix of numbers as a table.
use phd_thesis_src.Prelude.{
  ℕ, zero, suc, ◌+◌, ◌*◌, ◌<◌, ◌≡◌, refl, List, [], ◌∷◌, ℤ, pos, arith, length, get_elem?, get_or,
  some,
}
use phd_thesis_src.Matrix.{Matrix, entry}
use phd_thesis_src.Matrix.Cells.{IsFull, index-lt}

get_elem?-get_or :
    (xs : List ℤ) (k : ℕ) (d : ℤ) → k < length xs → get_elem? xs k ≡ some (get_or xs k d)
get_elem?-get_or [] k d h = absurd (omega arith)
get_elem?-get_or (x ∷ xs) zero d h = refl
get_elem?-get_or (x ∷ xs) (suc k) d h = get_elem?-get_or xs k d (omega arith)

-- The element at a cell; the default stands for one that is not there.
abbrev pub value_at : Matrix ℤ → ℕ → ℕ → ℤ
value_at g i j = get_or g.elements (i * g.n_cols + j) (pos 0)

pub entry-value_at :
    (g : Matrix ℤ) (i j : ℕ)
    → IsFull g
    → i < g.n_rows
    → j < g.n_cols
    → entry g i j ≡ some (value_at g i j)
unfolding entry
entry-value_at g i j full p q =
    get_elem?-get_or g.elements (i * g.n_cols + j) (pos 0)
      (omega (arith, full, index-lt g.n_rows g.n_cols i j p q))

pub value_at-entry :
    (g : Matrix ℤ) (i j : ℕ) (t : ℤ)
    → IsFull g
    → i < g.n_rows
    → j < g.n_cols
    → entry g i j ≡ some t
    → value_at g i j ≡ t
value_at-entry g i j t full p q e = cc (entry-value_at g i j full p q)
