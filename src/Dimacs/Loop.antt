-- ===== src/Dimacs/Loop.antt =====
-- `parse_extended_DIMACS_main` of core/Dimacs.h: the loop ends, and keeps the matrix symmetric.
use phd_thesis_src.Prelude.{ℕ, ◌≤◌, length}
use phd_thesis_src.Text.{Bytes}
use phd_thesis_src.Matrix.{Matrix}
use phd_thesis_src.Dimacs.{Parsed}
use phd_thesis_src.Dimacs.Symmetric.{AreSymmetric}

-- What a round leaves: a symmetric matrix, and at most `bound` characters.
abbrev After : ℕ → Parsed × Bytes → Type 0
After bound r = AreSymmetric r.0.adj_matrix × (length r.1 ≤ bound)
