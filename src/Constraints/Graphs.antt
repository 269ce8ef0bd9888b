-- ===== src/Constraints/Graphs.antt =====
-- `newAdjMatrix`, `isomorphic` and `notLexLeader` of core/ConstraintSolver.cc.
pub mod Row
pub mod Adjacency
pub mod Tally
pub mod Selected
pub mod Pairs
pub mod Match
pub mod Tables
pub mod Choices
pub mod Isomorphism
pub mod Filled
use phd_thesis_src.Prelude.{
  ℕ, zero, suc, ◌-◌, ◌==◌, Bool, true, false, List, [], ◌∷◌, ◌++◌, pos, get_elem?, Result, ok, err,
  out_of_range, ◌>>=◌, orelse, if◌then◌else◌, not,
}
use phd_thesis_src.Sat.{Lbool, l_true, l_false, l_undef}
use phd_thesis_src.Matrix.{Matrix, new_matrix, get, set, upper_cells, all_cells}
use phd_thesis_src.Constraints.{
  BoolVarRef, IntVarRef, Solver, neg, true_const, false_const, new_bool_var, bool_array_or,
}
use phd_thesis_src.Constraints.Gates.{bool_and_reif₂, bool_and_reif₃}
use phd_thesis_src.Constraints.Arrays.{bool_array_or_reif}
use phd_thesis_src.Constraints.Ints.{new_permutation, int_eq_reif}
use phd_thesis_src.Constraints.Lex.{bool_arrays_lex_lt}

-- The inner loop of `newAdjMatrix`, `k` rounds from column `j` on.
pub adj_row : ℕ → ℕ → ℕ → Matrix BoolVarRef → Solver → Result (Matrix BoolVarRef × Solver)
adj_row i j zero g s = ok (g, s)
adj_row i j (suc k) g s =
    let (x, s₁) = new_bool_var s in
    set g i j x >>= (λ g₁. set g₁ j i x >>= (λ g₂. adj_row i (suc j) k g₂ s₁))

-- The outer loop, `k` rounds from row `i` on.
pub adj_rows : ℕ → ℕ → ℕ → Matrix BoolVarRef → Solver → Result (Matrix BoolVarRef × Solver)
unfolding adj_row
adj_rows n i zero g s = ok (g, s)
adj_rows n i (suc k) g s =
    set g i i (neg true_const)
    >>= (λ g₁. adj_row i (suc i) (n - suc i) g₁ s >>= (λ r. adj_rows n (suc i) k r.0 r.1))

pub new_adj_matrix : ℕ → Solver → Result (Matrix BoolVarRef × Solver)
unfolding adj_rows
new_adj_matrix n s = adj_rows n 0 n (new_matrix (pos 0) n n) s

-- perm.at(k)
abbrev at : List IntVarRef → ℕ → Result IntVarRef
at perm k = orelse (get_elem? perm k) out_of_range

-- The gate for one pair (k, l): does `perm` send it to (i, j), and is it an edge of `g2`?
pub edge_gate :
    Matrix BoolVarRef → List IntVarRef → ℕ × ℕ → ℕ × ℕ → Solver → Result (BoolVarRef × Solver)
edge_gate g2 perm (i, j) (k, l) s = at perm k >>= (λ pk. int_eq_reif pk (pos i) s >>= (λ t₁.
    at perm l >>= (λ pl. int_eq_reif pl (pos j) s >>= (λ t₂.
      get g2 k l
      >>= (λ xkl. let (t, s₁) = new_bool_var s in ok (t, bool_and_reif₃ t₁ t₂ xkl t s₁))))))

-- The loop over `l`, `n` rounds from `l` on; `ts` comes out in the order of the pushes.
pub edge_row :
    Matrix BoolVarRef
    → List IntVarRef
    → ℕ × ℕ
    → ℕ
    → ℕ
    → ℕ
    → Solver
    → Result (List BoolVarRef × Solver)
unfolding edge_gate
edge_row g2 perm c k l zero s = ok ([], s)
edge_row g2 perm c k l (suc n) s = elim (k == l) [
  | true ↦ edge_row g2 perm c k (suc l) n s
  | false ↦
      edge_gate g2 perm c (k, l) s
      >>= (λ r. edge_row g2 perm c k (suc l) n r.1 >>= (λ q. ok (r.0 ∷ q.0, q.1)))
]

-- The loop over `k`, `m` rounds from `k` on.
pub edge_rows :
    Matrix BoolVarRef
    → List IntVarRef
    → ℕ × ℕ
    → ℕ
    → ℕ
    → ℕ
    → Solver
    → Result (List BoolVarRef × Solver)
unfolding edge_row
edge_rows g2 perm c n k zero s = ok ([], s)
edge_rows g2 perm c n k (suc m) s =
    edge_row g2 perm c k 0 n s
    >>= (λ r. edge_rows g2 perm c n (suc k) m r.1 >>= (λ q. ok (r.0 ++ q.0, q.1)))

-- The body of the loops over `i` and `j`, and these loops over the cells that they visit.
pub match_cells :
    Matrix BoolVarRef
    → Matrix BoolVarRef
    → List IntVarRef
    → ℕ
    → List (ℕ × ℕ)
    → Solver
    → Result Solver
unfolding edge_rows
match_cells g1 g2 perm n [] s = ok s
match_cells g1 g2 perm n (c ∷ cs) s = edge_rows g2 perm c n 0 n s >>= (λ r.
    get g1 c.0 c.1 >>= (λ xij. bool_array_or_reif r.0 xij r.1 >>= match_cells g1 g2 perm n cs))

pub isomorphic : Matrix BoolVarRef → Matrix BoolVarRef → List IntVarRef → Solver → Result Solver
unfolding match_cells
isomorphic g1 g2 perm s = match_cells g1 g2 perm g1.n_rows (upper_cells 0 g1.n_rows g1.n_rows) s

-- The references that a loop of `notLexLeader` pushes to `tsTrue` and to `tsFalse`.
abbrev Split : Type 0
Split = List BoolVarRef × List BoolVarRef

abbrev is_false : Lbool → Bool
is_false l_false = true
is_false l_true = false
is_false l_undef = false

-- The body of the loops over `i1` and `j1`.
split_gate :
    Matrix Lbool → List IntVarRef → ℕ × ℕ → ℕ × ℕ → Split → Solver → Result (Split × Solver)
split_gate g1 perm (i2, j2) (i1, j1) (ts, fs) s =
    let (t, s₁) = new_bool_var s in
    at perm i1 >>= (λ p. int_eq_reif p (pos i2) s₁ >>= (λ t₁. at perm j1 >>= (λ q.
      int_eq_reif q (pos j2) s₁ >>= (λ t₂. get g1 i1 j1 >>= (λ l.
        let s₂ = bool_and_reif₂ t₁ t₂ t s₁ in
        ok (if is_false l then (ts, fs ++ (t ∷ [])) else (ts ++ (t ∷ []), fs), s₂))))))

-- The loops over `i1` and `j1`, over the cells of the matrix.
split_cells :
    Matrix Lbool → List IntVarRef → ℕ × ℕ → List (ℕ × ℕ) → Split → Solver → Result (Split × Solver)
unfolding split_gate
split_cells g1 perm c [] ts s = ok (ts, s)
split_cells g1 perm c (d ∷ ds) ts s = elim (d.0 == d.1) [
  | true ↦ split_cells g1 perm c ds ts s
  | false ↦ split_gate g1 perm c d ts s >>= (λ r. split_cells g1 perm c ds r.0 r.1)
]

-- The loops over `i2` and `j2`.
leader_cells :
    Matrix Lbool → Matrix BoolVarRef → List IntVarRef → List (ℕ × ℕ) → Solver → Result Solver
unfolding split_cells
leader_cells g1 g2 perm [] s = ok s
leader_cells g1 g2 perm (c ∷ cs) s =
    split_cells g1 perm c (all_cells 0 g1.n_rows g1.n_rows) ([], []) s >>= (λ r.
      get g2 c.0 c.1 >>= (λ x.
        let s₁ = bool_array_or (r.0.0 ++ (neg x ∷ [])) r.1 in
        leader_cells g1 g2 perm cs (bool_array_or (r.0.1 ++ (x ∷ [])) s₁)))

-- The loops under `grounded`: the two strings up to the first cell with no value.
grounded_prefix : Matrix Lbool → Matrix BoolVarRef → List (ℕ × ℕ) → Result Split
grounded_prefix g1 g2 [] = ok ([], [])
grounded_prefix g1 g2 (c ∷ cs) = get g1 c.0 c.1 >>= (λ l. elim l [
  | l_undef ↦ ok ([], [])
  | l_true ↦
      get g2 c.0 c.1 >>= (λ x. grounded_prefix g1 g2 cs >>= (λ r. ok (true_const ∷ r.0, x ∷ r.1)))
  | l_false ↦
      get g2 c.0 c.1 >>= (λ x. grounded_prefix g1 g2 cs >>= (λ r. ok (false_const ∷ r.0, x ∷ r.1)))
])

pub not_lex_leader : Matrix Lbool → Solver → Result (List IntVarRef × Solver)
unfolding leader_cells grounded_prefix
not_lex_leader g1 s =
    let n = g1.n_rows in
    let cells = upper_cells 0 n n in
    new_permutation n s >>= (λ r. new_adj_matrix n r.1 >>= (λ q.
      leader_cells g1 q.0 r.0 cells q.1 >>= (λ s₁.
        grounded_prefix g1 q.0 cells
        >>= (λ p. bool_arrays_lex_lt p.1 p.0 s₁ >>= (λ s₂. ok (r.0, s₂))))))
