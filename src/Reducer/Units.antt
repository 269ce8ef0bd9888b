-- ===== src/Reducer/Units.antt =====
-- The unit clauses of core/LexImplicationsReducer.cc for a subgraph.
use phd_thesis_src.Prelude.{
  ℕ, suc, ◌+◌, ◌*◌, ◌/◌, ◌%◌, ◌==◌, ◌==ℤ◌, ◌<◌, ◌≤◌, ◌≡◌, ◌≢◌, refl, sym, ap, ◌∙◌, false, not, List,
  [], ◌∷◌, ℤ, pos, abs-neg_ℤ, arith, All, length, ok, Returns, if◌then◌else◌, Bool-cases, inl, inr,
}
use phd_thesis_src.Text.{Bytes}
use phd_thesis_src.Sat.Semantics.{Valuation}
use phd_thesis_src.Order.{Graph}
use phd_thesis_src.Matrix.{Matrix, get}
use phd_thesis_src.Matrix.Cells.{get_lem}
use phd_thesis_src.Matrix.Strings.{IsTable}
use phd_thesis_src.Constraints.{neg}
use phd_thesis_src.Constraints.Semantics.{ref_value, IsRef, ref_value-neg}
use phd_thesis_src.Canonizing.Subgraph.Embed.{HasFrom, row-lt, column-lt}
use phd_thesis_src.Reducer.Construct.{LexImplicationsReducer}
use phd_thesis_src.Reducer.Clauses.{subgraph_units}
use phd_thesis_src.Reducer.Gates.{Holds, IsClause}
use phd_thesis_src.Reducer.Strings.{Off, ShowsGraph}

module _ (n m : ℕ) (g : Matrix ℤ) (x : ℕ → ℕ → ℤ) (t : IsTable n g x)
    (refs : Off n (λ i j. IsRef m (x i j))) (zeros : (i : ℕ) → i < n → x i i ≡ pos 0) where
  -- Clauses that hold for every graph with the edges of the text.
  abbrev UnitsResult : ℕ → ℕ → Bytes → List (List ℤ) → Type 0
  UnitsResult k j cs units =
      All IsClause units
      × ((v : Valuation) (e : Graph) → ShowsGraph n x v e → HasFrom k j cs e → All (Holds v) units)

  abbrev unit : ℕ → ℤ → List ℤ
  unit c l = (if c == 48 then neg l else l) ∷ []

  unit-IsClause : (c : ℕ) (l : ℤ) → IsRef m l → IsClause (unit c l)
  unit-IsClause c l r = elim (Bool-cases (c == 48)) [
    | inl e ↦ rw e (omega (arith, abs-neg_ℤ l))
    | inr e ↦ rw e (omega arith)
  ]

  unit-Holds :
      (v : Valuation) (c : ℕ) (l : ℤ)
      → IsRef m l
      → ref_value v l ≡ not (c == 48)
      → Holds v (unit c l)
  unit-Holds v c l r h = elim (Bool-cases (c == 48)) [
    | inl e ↦ rw e (ground (arith, h, e, ref_value-neg v l r))
    | inr e ↦ rw e (ground (arith, h, e))
  ]

  -- A number that is not 0 stands off the diagonal.
  off_diagonal : (a b : ℕ) → a < n → (x a b ==ℤ pos 0) ≡ false → a ≢ b
  off_diagonal a b p h e =
      let zero_here : x a b ≡ pos 0 = ap (x a) (sym e) ∙ zeros a p in
      absurd (cc (ap (λ l. l ==ℤ pos 0) zero_here, h))

  pub subgraph_units-UnitsResult :
      (k j : ℕ) (cs : Bytes) (r : LexImplicationsReducer)
      → r.adj_matrix ≡ g
      → k ≤ n
      → j + length cs ≤ k * k
      → Returns (subgraph_units k j cs r) (UnitsResult k j cs)
  unfolding subgraph_units
  subgraph_units-UnitsResult k j [] r same le fits = ([], refl, (tt, λ v e s h. tt))
  subgraph_units-UnitsResult k j (c ∷ cs) r same le fits =
      let inside : j < k * k = omega arith in
      let a = j / k in
      let b = j % k in
      let row : a < n = omega (arith, row-lt j k inside) in
      let column : b < n = omega (arith, column-lt j k inside) in
      let read : get r.adj_matrix a b ≡ ok (x a b) =
        ap (λ g'. get g' a b) same ∙ get_lem g a b (x a b) (t.cells a b row column) in
      let (units, run, (ok_units, follow)) =
        subgraph_units-UnitsResult k (suc j) cs r same le (omega arith) in
      elim (Bool-cases (x a b ==ℤ pos 0)) [
        | inl e ↦ (
          units,
          rw read (rw run (rw e refl)),
          (ok_units, λ v f shows has. follow v f shows has.1),
        )
        | inr e ↦
            let ref = refs a b row column (off_diagonal a b row e) in
            (
              unit c (x a b) ∷ units,
              rw read (rw run (rw e refl)),
              (
                (unit-IsClause c (x a b) ref, ok_units),
                λ v f shows has. (
                  unit-Holds v c (x a b) ref
                      (shows a b row column (off_diagonal a b row e) ∙ has.0),
                  follow v f shows has.1,
                ),
              ),
            )
      ]
