-- ===== src/Canonizing/SetUp.antt =====
-- The start of a round of core/CanonizingLexImplicationsAlg.cc, from `newModel` to `isomorphic`.
use phd_thesis_src.Prelude.{
  All, All-mono, length, ℕ, ◌<◌, ◌≡◌, refl, sym, ap, ◌∙◌, Bool, true, List, arith, Returns,
}
use phd_thesis_src.Sat.Semantics.{Valuation}
use phd_thesis_src.Order.{Graph}
use phd_thesis_src.Matrix.{Matrix}
use phd_thesis_src.Constraints.{BoolVarRef, IntVarRef, Solver, new_solver}
use phd_thesis_src.Constraints.Semantics.{IsRef, IsRef-grow, vars, holds, ref_value_congr}
use phd_thesis_src.Matrix.Strings.{IsTable}
use phd_thesis_src.Constraints.Encodes.{Encodes}
use phd_thesis_src.Constraints.Initial.{new_solver-IsValid, new_solver-holds, new_model-new_solver}
use phd_thesis_src.Constraints.Ints.Rows.{rows, AreVars, AreVars-kept}
use phd_thesis_src.Constraints.Ints.Permutations.{
  IsPermMatrix, PermResult, new_permutation-PermResult,
}
use phd_thesis_src.Constraints.Graphs.Filled.{
  IsFilled, AdjResult, SameGraph, new_adj_matrix-AdjResult,
}
use phd_thesis_src.Constraints.Graphs.Tally.{IsPerm-congr}
use phd_thesis_src.Constraints.Graphs.Pairs.{table, Cells-mono}
use phd_thesis_src.Constraints.Graphs.Match.{Given, Given-grow}
use phd_thesis_src.Constraints.Graphs.Tables.{
  ref_at, cell_of, table-cell_of, AreVars-PermRefs, IsPermMatrix-IsPerm,
}
use phd_thesis_src.Constraints.Graphs.Choices.{matrix_of, IsPermMatrix-matrix_of, cell_of-matrix_of}
use phd_thesis_src.Constraints.Graphs.Isomorphism.{
  IsPermutedBy, AreGraphs, InModels, Permuted, isomorphic-Encodes,
}
use phd_thesis_src.Canonizing.{Round, set_up}

-- The models of a round are the pairs of graphs with a permutation from the one to the other.
pub record SetUpResult (n : ℕ) (u : Round) : Type 0 where
  pub bs : List (List BoolVarRef)
  pub x1 : ℕ → ℕ → BoolVarRef
  pub x2 : ℕ → ℕ → BoolVarRef
  pub are_vars : AreVars u.solver.ints bs u.perm
  pub size : length bs ≡ n
  pub widths : All (λ b. length b ≡ n) bs
  pub bool_refs : All (All (IsRef (vars u.solver))) bs
  pub table1 : IsTable n u.g1 x1
  pub table2 : IsTable n u.g2 x2
  pub given : Given n u.g1 u.g2 u.perm (ref_at bs) x1 x2 u.solver
  pub sound :
      (v : Valuation)
      → holds v u.solver ≡ true
      → AreGraphs n (table v (ref_at bs)) (table v x1) (table v x2)
        × IsPermutedBy n (table v (ref_at bs)) (table v x1) (table v x2)
  pub matrix : (v : Valuation) → holds v u.solver ≡ true → IsPermMatrix n (rows v bs)
  pub complete :
      (e f : Graph) (p : ℕ → ℕ → Bool)
      → AreGraphs n p e f
      → IsPermutedBy n p e f
      → (v : Valuation) × (holds v u.solver ≡ true)
        × SameGraph n (table v x1) e
        × SameGraph n (table v x2) f
        × SameGraph n (table v (ref_at bs)) p

filled-IsTable :
    (n : ℕ) (x : ℕ → ℕ → BoolVarRef) (g : Matrix BoolVarRef × Solver)
    → IsFilled n x g
    → IsTable n g.0 x
filled-IsTable n x g h = record {
  rows = h.rows;
  cols = h.cols;
  square = (h.rows ∙ sym h.cols, h.full);
  cells = λ i j p q. (h.cell i j p q).found;
}

module _ (n : ℕ) (a b : Matrix BoolVarRef × Solver) (c : List IntVarRef × Solver)
    (first : AdjResult n new_solver a) (second : AdjResult n a.1 b)
    (third : PermResult n b.1 c) where
  abbrev r : ℕ → ℕ → BoolVarRef
  r = ref_at third.bs

  pub made : Given n a.0 b.0 c.0 r first.x second.x c.1
  made = record {
    valid = third.offers.valid;
    refs = AreVars-PermRefs n c.1 third.bs c.0 third.are_vars third.size third.widths third.refs;
    cells1 =
        Cells-mono a.1 c.1 (omega (arith, second.offers.grows, third.offers.grows))
          first.filled.cell;
    cells2 = Cells-mono b.1 c.1 third.offers.grows second.filled.cell;
  }

  pub known : InModels n a.0 b.0 c.0 r first.x second.x c.1
  known v held =
      let (held_b, perm) = third.offers.sound v held in
      let (held_a, graph2) = second.offers.sound v held_b in
      (
        IsPerm-congr n (cell_of (rows v third.bs)) (table v r)
            (λ k i lk li. sym (table-cell_of v n third.bs k i third.size third.widths lk li))
            (IsPermMatrix-IsPerm n (rows v third.bs) perm),
        (first.offers.sound v held_a).1,
        graph2,
      )

  -- A model with the given graphs and the given permutation.
  chosen :
      (e f : Graph) (p : ℕ → ℕ → Bool)
      → AreGraphs n p e f
      → (v : Valuation) × (holds v c.1 ≡ true)
        × SameGraph n (table v first.x) e
        × SameGraph n (table v second.x) f
        × SameGraph n (table v r) p
  chosen e f p (perm, graph1, graph2) =
      let (v1, ag1, sh1, h1) = first.offers.complete (λ i. true) e new_solver-holds graph1 in
      let (v2, ag2, sh2, h2) = second.offers.complete v1 f h1 graph2 in
      let (v3, ag3, sh3, h3) =
        third.offers.complete v2 (matrix_of n p) h2 (IsPermMatrix-matrix_of n p perm) in
      (
        v3,
        h3,
        first.offers.shows_congr v1 v3 e
            (λ i lt. ag2 i lt ∙ ag3 i (omega (arith, second.offers.grows))) sh1,
        second.offers.shows_congr v2 v3 f ag3 sh2,
        λ k i lk li.
            table-cell_of v3 n third.bs k i third.size third.widths lk li
            ∙ ap (λ xs. cell_of xs k i) sh3
            ∙ cell_of-matrix_of n p k i lk li,
      )

  IsPermutedBy-shown :
      (e f : Graph) (p : ℕ → ℕ → Bool) (v : Valuation)
      → SameGraph n (table v first.x) e
      → SameGraph n (table v second.x) f
      → SameGraph n (table v r) p
      → IsPermutedBy n p e f
      → Permuted n a.0 b.0 c.0 r first.x second.x c.1 v
  IsPermutedBy-shown e f p v sh1 sh2 sh3 iso k l i j lk ll li lj hk hl =
      sh2 k l lk ll
      ∙ iso k l i j lk ll li lj (sym (sh3 k i lk li) ∙ hk) (sym (sh3 l j ll lj) ∙ hl)
      ∙ sym (sh1 i j li lj)

  finished :
      (s' : Solver)
      → Encodes c.1 s'
          (Permuted n a.0 b.0 c.0 r first.x second.x c.1)
          (Permuted n a.0 b.0 c.0 r first.x second.x c.1)
      → SetUpResult n (record { g1 = a.0; g2 = b.0; perm = c.0; solver = s' })
  finished s' step = record {
    bs = third.bs;
    are_vars = AreVars-kept c.1.ints s'.ints third.bs c.0 step.ints_kept third.are_vars;
    size = third.size;
    widths = third.widths;
    bool_refs = All-mono _ _ (λ b. IsRef-grow b step.grows) third.bs third.refs;
    table1 = filled-IsTable n first.x a first.filled;
    table2 = filled-IsTable n second.x b second.filled;
    x1 = first.x;
    x2 = second.x;
    given = Given-grow n a.0 b.0 c.0 r first.x second.x step made;
    sound = λ v held. let (held', iso) = step.sound v held in (known v held', iso);
    matrix = λ v held. (third.offers.sound v (step.sound v held).0).1;
    complete = λ e f p graphs iso.
        let (v, held, sh1, sh2, sh3) = chosen e f p graphs in
        let (w, agree, held') = step.complete v held (IsPermutedBy-shown e f p v sh1 sh2 sh3 iso) in
        (
          w,
          held',
          λ k l lk ll.
              sym (ref_value_congr v w (first.x k l) agree (made.cells1 k l lk ll).ref)
              ∙ sh1 k l lk ll,
          λ k l lk ll.
              sym (ref_value_congr v w (second.x k l) agree (made.cells2 k l lk ll).ref)
              ∙ sh2 k l lk ll,
          λ k i lk li.
              sym (ref_value_congr v w (r k i) agree (made.refs k i lk li).ref) ∙ sh3 k i lk li,
        );
  }

-- For n > 0 the start of a round succeeds on any solver. In each model of the solver that it leaves
-- the two matrices are simple graphs, the integer variables are a permutation, and the second graph
-- is the first one with its vertices permuted by it; each such triple is that of some model.
pub set_up-SetUpResult : (n : ℕ) (s : Solver) → 0 < n → Returns (set_up n s) (SetUpResult n)
unfolding set_up
set_up-SetUpResult n s lt =
    let (a, run_a, first) = new_adj_matrix-AdjResult n new_solver new_solver-IsValid in
    let (b, run_b, second) = new_adj_matrix-AdjResult n a.1 first.offers.valid in
    let (c, run_c, third) = new_permutation-PermResult n b.1 second.offers.valid lt in
    let (s', run, step) =
      isomorphic-Encodes n a.0 b.0 c.0 (ref_at third.bs) first.x second.x c.1
        (made n a b c first second third) first.filled.rows (known n a b c first second third) in
    (
      record { g1 = a.0; g2 = b.0; perm = c.0; solver = s' },
      rw (new_model-new_solver s) (rw run_a (rw run_b (rw run_c (rw run refl)))),
      finished n a b c first second third s' step,
    )
