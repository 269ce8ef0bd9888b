-- ===== src/Constraints/Graphs/Pairs.antt =====
-- The gates of `isomorphic` for one cell: what their values are.
use phd_thesis_src.Prelude.{
  ℕ, zero, suc, ◌+◌, ◌<◌, ◌≤◌, ◌==◌, ◌≡◌, refl, ap, ap₂, ◌∙◌, Bool, ◌&&◌, List, [], ◌∷◌, ◌++◌, pos,
  arith, All, All-append, length, length-append, get_elem?, some, ok, Returns, Bool-cases, inl, inr,
}
use phd_thesis_src.Sat.Semantics.{Valuation}
use phd_thesis_src.Matrix.{Matrix}
use phd_thesis_src.Matrix.Cells.{get_lem}
use phd_thesis_src.Constraints.{BoolVarRef, IntVarRef, Solver, new_bool_var}
use phd_thesis_src.Constraints.Semantics.{
  ref_value, values, IsRef, vars, IsValid, IsRef-mono, IsRef-grow, ref_value_congr,
}
use phd_thesis_src.Constraints.Encodes.{Encodes, Encodes_then, Encodes_map, Always, unchanged}
use phd_thesis_src.Constraints.Fresh.{
  IsRef-new_bool_var, new_bool_var-vars, Encodes_fresh, IsValid-new_bool_var,
}
use phd_thesis_src.Constraints.Gates.{bool_and_reif₃, bool_and_reif₃-Encodes, And₃Gate}
use phd_thesis_src.Constraints.Ints.{int_eq_reif}
use phd_thesis_src.Constraints.Ints.Reads.{int_eq_reif-kept}
use phd_thesis_src.Constraints.Graphs.{edge_gate, edge_row, edge_rows}
use phd_thesis_src.Constraints.Graphs.Row.{Cell}
use phd_thesis_src.Constraints.Graphs.Tally.{off_row, off_rows}
use phd_thesis_src.Constraints.Graphs.Selected.{selected}

-- The table of truth values of references.
abbrev pub table : Valuation → (ℕ → ℕ → BoolVarRef) → ℕ → ℕ → Bool
table v x i j = ref_value v (x i j)

-- `r k i` is the reference for "perm[k] is i".
pub record PermAt (n : ℕ) (s : Solver) (perm : List IntVarRef) (r : ℕ → ℕ → BoolVarRef) (k i : ℕ)
    : Type 0 where
  pub var : IntVarRef
  pub found : get_elem? perm k ≡ some var
  pub reif : int_eq_reif var (pos i) s ≡ ok (r k i)
  pub ref : IsRef (vars s) (r k i)

abbrev pub PermRefs : ℕ → Solver → List IntVarRef → (ℕ → ℕ → BoolVarRef) → Type 0
PermRefs n s perm r = (k i : ℕ) → k < n → i < n → PermAt n s perm r k i

abbrev pub Cells : ℕ → Solver → Matrix BoolVarRef → (ℕ → ℕ → BoolVarRef) → Type 0
Cells n s g x = (k l : ℕ) → k < n → l < n → Cell (vars s) g k l (x k l)

pub Cells-mono :
    {n : ℕ} (s s' : Solver) {g : Matrix BoolVarRef} {x : ℕ → ℕ → BoolVarRef}
    → vars s ≤ vars s'
    → Cells n s g x
    → Cells n s' g x
Cells-mono s s' {x} grows cells k l p q = record {
  found = (cells k l p q).found;
  ref = IsRef-mono (x k l) grows (cells k l p q).ref;
}

pub PermRefs-grow :
    {n : ℕ} {s s' : Solver} {perm : List IntVarRef} {r : ℕ → ℕ → BoolVarRef}
    {P Q : Valuation → Type 0}
    → Encodes s s' P Q
    → PermRefs n s perm r
    → PermRefs n s' perm r
PermRefs-grow {s} {s'} {r} step refs k i p q =
    let at = refs k i p q in
    record {
      var = at.var;
      found = at.found;
      reif = int_eq_reif-kept at.var (pos i) s s' (r k i) step.ints_kept at.reif;
      ref = IsRef-mono (r k i) step.grows at.ref;
    }

abbrev and_gate : BoolVarRef → BoolVarRef → BoolVarRef → Solver → Solver
and_gate x y z s = bool_and_reif₃ x y z (new_bool_var s).0 (new_bool_var s).1

-- A fresh gate for the conjunction of three references.
module _ (x y z : BoolVarRef) (s : Solver) (h : IsValid s) (rx : IsRef (vars s) x)
    (ry : IsRef (vars s) y) (rz : IsRef (vars s) z) where
  gate_step :
      Encodes
        (new_bool_var s).1
        (and_gate x y z s)
        (And₃Gate x y z (new_bool_var s).0)
        (And₃Gate x y z (new_bool_var s).0)
  gate_step =
      let wider = new_bool_var-vars s h in
      bool_and_reif₃-Encodes (new_bool_var s).1 (IsValid-new_bool_var s h) x y (new_bool_var s).0
        (IsRef-mono x (omega arith) rx) (IsRef-mono y (omega arith) ry) (IsRef-new_bool_var s h) z
        (IsRef-mono z (omega arith) rz)

  IsRef-fresh_and : IsRef (vars (and_gate x y z s)) (new_bool_var s).0
  IsRef-fresh_and = IsRef-mono (new_bool_var s).0 gate_step.grows (IsRef-new_bool_var s h)

  fresh_and-Encodes : Encodes s (and_gate x y z s) Always (And₃Gate x y z (new_bool_var s).0)
  fresh_and-Encodes =
      Encodes_fresh s h Always (λ v. ref_value v x && ref_value v y && ref_value v z) gate_step
        (λ v w p agree e. ground (
          arith,
          ref_value_congr v w x agree rx,
          ref_value_congr v w y agree ry,
          ref_value_congr v w z agree rz,
        ))

-- References that are added, with their values.
abbrev pub Adds : Solver → (Valuation → List Bool) → List BoolVarRef × Solver → Type 0
Adds s f r =
    All (IsRef (vars r.1)) r.0
    × Encodes s r.1 Always (λ v. values v r.0 ≡ f v)
    × ((v : Valuation) → length r.0 ≡ length (f v))

values-append :
    (v : Valuation) (cs bs : List BoolVarRef) → values v (cs ++ bs) ≡ values v cs ++ values v bs
values-append v [] bs = refl
values-append v (c ∷ cs) bs = ap (λ a. ref_value v c ∷ a) (values-append v cs bs)

module _ (n : ℕ) (g2 : Matrix BoolVarRef) (perm : List IntVarRef) (r x : ℕ → ℕ → BoolVarRef)
    (c : ℕ × ℕ) (i_lt : c.0 < n) (j_lt : c.1 < n) where
  abbrev gates : Valuation → ℕ → ℕ → Bool
  gates v = selected (table v r) (table v x) c

  edge_gate-Adds :
      (k l : ℕ) (s : Solver)
      → IsValid s
      → PermRefs n s perm r
      → Cells n s g2 x
      → k < n
      → l < n
      → Returns
          (edge_gate g2 perm c (k, l) s)
          λ t. IsRef (vars t.1) t.0 × Encodes s t.1 Always (λ v. ref_value v t.0 ≡ gates v k l)
  unfolding edge_gate
  edge_gate-Adds k l s h refs cells lk ll =
      let a = refs k c.0 lk i_lt in
      let b = refs l c.1 ll j_lt in
      let cell = cells k l lk ll in
      (
        ((new_bool_var s).0, and_gate (r k c.0) (r l c.1) (x k l) s),
        rw (a.found, a.reif) (rw (b.found, b.reif) (rw (get_lem g2 k l (x k l) cell.found) refl)),
        (
          IsRef-fresh_and (r k c.0) (r l c.1) (x k l) s h a.ref b.ref cell.ref,
          fresh_and-Encodes (r k c.0) (r l c.1) (x k l) s h a.ref b.ref cell.ref,
        ),
      )

  edge_row-Adds :
      (k l m : ℕ) (s : Solver)
      → IsValid s
      → PermRefs n s perm r
      → Cells n s g2 x
      → k < n
      → l + m ≤ n
      → Returns (edge_row g2 perm c k l m s) (Adds s (λ v. off_row (gates v) k l m))
  unfolding edge_row
  edge_row-Adds k l zero s h refs cells lk lm =
      (([], s), refl, (tt, Encodes_map (unchanged s h) (λ v p. p) (λ v q. refl), λ v. refl))
  edge_row-Adds k l (suc m) s h refs cells lk lm = elim (Bool-cases (k == l)) [
    | inl e ↦ rw (e, edge_row) (edge_row-Adds k (suc l) m s h refs cells lk (omega arith))
    | inr e ↦
        let (t, run, (ref, step)) = edge_gate-Adds k l s h refs cells lk (omega arith) in
        let (q, run', (refs', rest, len)) =
          edge_row-Adds k (suc l) m t.1 step.valid (PermRefs-grow step refs)
            (Cells-mono s t.1 step.grows cells) lk (omega arith) in
        (
          (t.0 ∷ q.0, q.1),
          rw (e, edge_row) (rw run (rw run' refl)),
          (
            (IsRef-mono t.0 rest.grows ref, refs'),
            Encodes_map (Encodes_then Always step rest (λ v p. tt) (λ v w p a q. tt)) (λ v p. p)
                (λ v p. rw e (ap₂ (λ a b. a ∷ b) p.0 p.1)),
            λ v. rw e (ap suc (len v)),
          ),
        )
  ]

  pub edge_rows-Adds :
      (k m : ℕ) (s : Solver)
      → IsValid s
      → PermRefs n s perm r
      → Cells n s g2 x
      → k + m ≤ n
      → Returns (edge_rows g2 perm c n k m s) (Adds s (λ v. off_rows (gates v) n k m))
  unfolding edge_rows
  edge_rows-Adds k zero s h refs cells lm =
      (([], s), refl, (tt, Encodes_map (unchanged s h) (λ v p. p) (λ v q. refl), λ v. refl))
  edge_rows-Adds k (suc m) s h refs cells lm =
      let (t, run, (ts, step, len)) =
        edge_row-Adds k 0 n s h refs cells (omega arith) (omega arith) in
      let (q, run', (qs, rest, len')) =
        edge_rows-Adds (suc k) m t.1 step.valid (PermRefs-grow step refs)
          (Cells-mono s t.1 step.grows cells) (omega arith) in
      (
        (t.0 ++ q.0, q.1),
        rw run (rw run' refl),
        (
          All-append _ t.0 q.0 (IsRef-grow t.0 rest.grows ts) qs,
          Encodes_map (Encodes_then Always step rest (λ v p. tt) (λ v w p a q. tt)) (λ v p. p)
              (λ v p. values-append v t.0 q.0 ∙ ap₂ (λ a b. a ++ b) p.0 p.1),
          λ v. omega (
            arith,
            length-append t.0 q.0,
            len v,
            len' v,
            length-append (off_row (gates v) k 0 n) (off_rows (gates v) n (suc k) m),
          ),
        ),
      )
