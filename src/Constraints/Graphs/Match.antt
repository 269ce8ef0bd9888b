-- ===== src/Constraints/Graphs/Match.antt =====
-- The loops of `isomorphic`: what is posted for each cell above the diagonal.
use phd_thesis_src.Prelude.{
  ℕ, ◌<◌, ◌≤◌, ◌≡◌, refl, sym, ap, ◌∙◌, Bool, true, List, [], ◌∷◌, arith, any, All, length, Returns,
}
use phd_thesis_src.Sat.Semantics.{Valuation}
use phd_thesis_src.Matrix.{Matrix}
use phd_thesis_src.Matrix.Cells.{get_lem}
use phd_thesis_src.Constraints.{BoolVarRef, IntVarRef, Solver}
use phd_thesis_src.Constraints.Semantics.{
  ref_value, values, IsRef, IsRef-mono, Agree, vars, IsValid, ref_value_congr,
}
use phd_thesis_src.Constraints.Encodes.{Encodes, Encodes_then, Encodes_map, unchanged}
use phd_thesis_src.Constraints.Cardinality.{count_true}
use phd_thesis_src.Constraints.Arrays.{
  bool_array_or_reif, OrArray, OrArrayOnce, bool_array_or_reif-Encodes,
}
use phd_thesis_src.Constraints.Ints.Single.{ones, count_true-ones}
use phd_thesis_src.Constraints.Graphs.{match_cells}
use phd_thesis_src.Constraints.Graphs.Tally.{off_rows, some_true, off_rows_congr, length-off_rows}
use phd_thesis_src.Constraints.Graphs.Selected.{selected}
use phd_thesis_src.Constraints.Graphs.Pairs.{
  table, PermRefs, PermRefs-grow, Cells, Cells-mono, Adds, edge_rows-Adds,
}

any-values : (v : Valuation) (bs : List BoolVarRef) → any (ref_value v) bs ≡ some_true (values v bs)
any-values v [] = refl
any-values v (b ∷ bs) = ground (arith, any-values v bs)

or_reif-Encodes :
    (ts : List BoolVarRef) (t : BoolVarRef) (s : Solver)
    → IsValid s
    → IsRef (vars s) t
    → All (IsRef (vars s)) ts
    → 2 ≤ length ts
    → Returns (bool_array_or_reif ts t s) λ s'. Encodes s s' (OrArray ts t) (OrArrayOnce ts t)
or_reif-Encodes [] t s h r rs len = absurd (omega arith)
or_reif-Encodes (b ∷ []) t s h r rs len = absurd (omega arith)
or_reif-Encodes (b ∷ c ∷ bs) t s h r rs len = bool_array_or_reif-Encodes b bs t s h c (r, rs)

module _ (n : ℕ) (g1 g2 : Matrix BoolVarRef) (perm : List IntVarRef)
    (r x1 x2 : ℕ → ℕ → BoolVarRef) where
  -- The gates of a cell, and what is posted for it.
  abbrev gates_of : ℕ × ℕ → Valuation → List Bool
  gates_of c v = off_rows (selected (table v r) (table v x2) c) n 0 n

  abbrev pub CellOk : Valuation → ℕ × ℕ → Type 0
  CellOk v c = ref_value v (x1 c.0 c.1) ≡ some_true (gates_of c v)

  abbrev pub CellOnce : Valuation → ℕ × ℕ → Type 0
  CellOnce v c = ones (gates_of c v) ≤ 1 → CellOk v c

  abbrev pub Above : ℕ × ℕ → Type 0
  Above c = (c.0 < c.1) × (c.1 < n)

  -- The matrices and the permutation that a call is given.
  pub record Given (s : Solver) : Type 0 where
    pub valid : IsValid s
    pub refs : PermRefs n s perm r
    pub cells1 : Cells n s g1 x1
    pub cells2 : Cells n s g2 x2

  pub Given-grow :
      {s s' : Solver} {P Q : Valuation → Type 0} → Encodes s s' P Q → Given s → Given s'
  Given-grow {s} {s'} step a = record {
    valid = step.valid;
    refs = PermRefs-grow step a.refs;
    cells1 = Cells-mono s s' step.grows a.cells1;
    cells2 = Cells-mono s s' step.grows a.cells2;
  }

  gates_of_congr :
      (s : Solver) (v w : Valuation) (c : ℕ × ℕ)
      → Given s
      → Agree (vars s) v w
      → Above c
      → gates_of c v ≡ gates_of c w
  gates_of_congr s v w c a agree lt =
      off_rows_congr (selected (table v r) (table v x2) c) (selected (table w r) (table w x2) c) n
        (λ k l p q.
          let e1 = ref_value_congr v w (r k c.0) agree (a.refs k c.0 p (omega arith)).ref in
          let e2 = ref_value_congr v w (r l c.1) agree (a.refs l c.1 q lt.1).ref in
          let e3 = ref_value_congr v w (x2 k l) agree (a.cells2 k l p q).ref in
          rw (e1, e2, e3) refl)
        0 n (omega arith)

  CellOk-congr :
      (s : Solver) (v w : Valuation) (c : ℕ × ℕ)
      → Given s
      → Agree (vars s) v w
      → Above c
      → CellOk v c
      → CellOk w c
  CellOk-congr s v w c a agree lt h =
      sym (ref_value_congr v w (x1 c.0 c.1) agree (a.cells1 c.0 c.1 (omega arith) lt.1).ref)
      ∙ h
      ∙ ap some_true (gates_of_congr s v w c a agree lt)

  CellsOk_congr :
      (s : Solver) (v w : Valuation)
      → Given s
      → Agree (vars s) v w
      → (cs : List (ℕ × ℕ)) → All Above cs
      → All (CellOk v) cs
      → All (CellOk w) cs
  CellsOk_congr s v w a agree [] above h = tt
  CellsOk_congr s v w a agree (c ∷ cs) above h =
      (CellOk-congr s v w c a agree above.0 h.0, CellsOk_congr s v w a agree cs above.1 h.1)

  -- The gates of one cell and the disjunction over them.
  cell-Encodes :
      (c : ℕ × ℕ) (s : Solver) (t : List BoolVarRef × Solver)
      → Given s
      → Above c
      → Adds s (gates_of c) t
      → Returns
          (bool_array_or_reif t.0 (x1 c.0 c.1) t.1)
          λ s'. Encodes s s' (λ v. CellOk v c) (λ v. CellOnce v c)
  cell-Encodes c s t a lt (refs, step, len) =
      let x = x1 c.0 c.1 in
      let ref = (a.cells1 c.0 c.1 (omega arith) lt.1).ref in
      let many : 2 ≤ length t.0 = omega (
        arith,
        len (λ i. true),
        length-off_rows (selected (table (λ i. true) r) (table (λ i. true) x2) c) n (omega arith),
      ) in
      let (s', run, last) =
        or_reif-Encodes t.0 x t.1 step.valid (IsRef-mono x step.grows ref) refs many in
      (
        s',
        run,
        Encodes_map
            (Encodes_then (λ v. CellOk v c) step last (λ v p. tt)
              (λ v w p agree q.
                CellOk-congr s v w c a agree lt p ∙ ap some_true (sym q) ∙ sym (any-values w t.0)))
            (λ v p. p)
            (λ v q once.
              let few : count_true v t.0 ≤ 1 = omega (arith, count_true-ones v t.0, ap ones q.0) in
              q.1 few ∙ any-values v t.0 ∙ ap some_true q.0),
      )

  pub match_cells-Encodes :
      (cs : List (ℕ × ℕ)) (s : Solver)
      → Given s
      → All Above cs
      → Returns
          (match_cells g1 g2 perm n cs s)
          λ s'. Encodes s s' (λ v. All (CellOk v) cs) (λ v. All (CellOnce v) cs)
  unfolding match_cells
  match_cells-Encodes [] s a above =
      (s, refl, Encodes_map (unchanged s a.valid) (λ v p. tt) (λ v q. tt))
  match_cells-Encodes (c ∷ cs) s a above =
      let lt = above.0 in
      let (t, run, adds) =
        edge_rows-Adds n g2 perm r x2 c (omega arith) lt.1 0 n s a.valid a.refs a.cells2
          (omega arith) in
      let (s₁, run₁, step) = cell-Encodes c s t a lt adds in
      let (s₂, run₂, rest) = match_cells-Encodes cs s₁ (Given-grow step a) above.1 in
      let x = a.cells1 c.0 c.1 (omega arith) lt.1 in
      (
        s₂,
        rw run (rw (get_lem g1 c.0 c.1 (x1 c.0 c.1) x.found) (rw run₁ run₂)),
        Encodes_map
            (Encodes_then (λ v. CellOk v c × All (CellOk v) cs) step rest (λ v p. p.0)
              (λ v w p agree q. CellsOk_congr s v w a agree cs above.1 p.1))
            (λ v p. p) (λ v q. q),
      )
