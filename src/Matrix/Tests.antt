-- ===== src/Matrix/Tests.antt =====
-- Runs of the matrix operations on a small matrix.
use phd_thesis_src.Prelude.{ℕ, ◌≡◌, refl, [], ◌∷◌, arith, ok, err, undefined_access, Returns}
use phd_thesis_src.Matrix.{
  Matrix, set, get, entry, permute, upper_triangle, read_cells, all_cells, upper_cells, row_cells,
}
use phd_thesis_src.Matrix.Core.{CoreMatrix}
use phd_thesis_src.Matrix.Permute.{Permuted, permute-Permuted}
use phd_thesis_src.Matrix.Writes.{Written, set-Written}

-- A path of three vertices.
abbrev path : Matrix ℕ
path = record { elements = 0 ∷ 1 ∷ 0 ∷ 1 ∷ 0 ∷ 1 ∷ 0 ∷ 1 ∷ 0 ∷ []; n_rows = 3; n_cols = 3 }

-- The middle vertex goes first.
abbrev moved_path : Matrix ℕ
moved_path = record path { elements = 0 ∷ 1 ∷ 1 ∷ 1 ∷ 0 ∷ 0 ∷ 1 ∷ 0 ∷ 0 ∷ [] }

permute-path : permute path (1 ∷ 0 ∷ 2 ∷ []) ≡ ok moved_path
unfolding permute read_cells get entry all_cells row_cells
permute-path = refl

triangle_path : upper_triangle moved_path ≡ ok (1 ∷ 1 ∷ 0 ∷ [])
unfolding upper_triangle read_cells get entry upper_cells row_cells
triangle_path = refl

get_outside : get path 3 0 ≡ err undefined_access
unfolding get entry
get_outside = refl

permute-Permuted_example : Returns (permute path (1 ∷ 0 ∷ 2 ∷ [])) (Permuted path (1 ∷ 0 ∷ 2 ∷ []))
permute-Permuted_example = permute-Permuted path (1 ∷ 0 ∷ 2 ∷ []) (refl, refl) (omega arith)

set-Written_example : Returns (set path 0 2 7) (Written path 0 2 7)
set-Written_example = set-Written path 0 2 7 refl (omega arith) (omega arith)

-- The same path in the other copy.
abbrev core_path : CoreMatrix ℕ
core_path = record { elements = path.elements; n_rows = 3; n_cols = 3 }
