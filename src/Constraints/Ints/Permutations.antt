-- ===== src/Constraints/Ints/Permutations.antt =====
-- `newPermutation`: the rows of the variables form a permutation matrix.
use phd_thesis_src.Prelude.{
  ℕ, zero, suc, ◌+◌, ◌<◌, ◌≤◌, ◌≡◌, refl, sym, ap, ap₂, ◌∙◌, subst, Bool, false, List, [], ◌∷◌,
  arith, All, All-mono, length, get_elem?, get_or, some, Returns,
}
use phd_thesis_src.Sat.Semantics.{Valuation}
use phd_thesis_src.Constraints.{BoolVarRef, IntVarRef, IntVar, Solver}
use phd_thesis_src.Constraints.Semantics.{
  ref_value, values, IsRef, Agree, vars, IsValid, IsRef-grow,
}
use phd_thesis_src.Constraints.Encodes.{Encodes, Encodes_then, Encodes_map, unchanged}
use phd_thesis_src.Constraints.Offers.{Offers, Offers_then, Offers_map}
use phd_thesis_src.Constraints.Cardinality.{exactly_one, exactly_one-Encodes}
use phd_thesis_src.Constraints.Ints.{int_vars, column, distinct, new_permutation}
use phd_thesis_src.Constraints.Ints.Single.{ones, count_true-ones}
use phd_thesis_src.Constraints.Ints.Rows.{
  rows, AreVars, AreVars-kept, AreHot, rows_congr, int_vars-IntsResult,
}

-- Column `num` of a matrix of truth values.
abbrev pub column_of : ℕ → List (List Bool) → List Bool
column_of num [] = []
column_of num (x ∷ xs) = get_or x num false ∷ column_of num xs

-- Each of the columns from `num` on, `k` of them, has one true entry.
abbrev pub ColumnsHot : ℕ → ℕ → List (List Bool) → Type 0
ColumnsHot num zero xs = Unit
ColumnsHot num (suc k) xs = (ones (column_of num xs) ≡ 1) × ColumnsHot (suc num) k xs

get_elem?-values :
    (v : Valuation) (bs : List BoolVarRef) (k : ℕ)
    → k < length bs
    → (b : BoolVarRef) × (get_elem? bs k ≡ some b) × (get_or (values v bs) k false ≡ ref_value v b)
get_elem?-values v [] k h = absurd (omega arith)
get_elem?-values v (b ∷ bs) zero h = (b, refl, refl)
get_elem?-values v (b ∷ bs) (suc k) h = get_elem?-values v bs k (omega arith)

get_elem?-IsRef :
    (n : ℕ) (bs : List BoolVarRef) (k : ℕ)
    → k < length bs
    → All (IsRef n) bs
    → (b : BoolVarRef) × (get_elem? bs k ≡ some b)
      × IsRef n b
      × ((v : Valuation) → get_or (values v bs) k false ≡ ref_value v b)
get_elem?-IsRef n [] k h r = absurd (omega arith)
get_elem?-IsRef n (b ∷ bs) zero h r = (b, refl, r.0, λ v. refl)
get_elem?-IsRef n (b ∷ bs) (suc k) h r = get_elem?-IsRef n bs k (omega arith) r.1

-- The references of a column.
abbrev ColumnResult : ℕ → ℕ → List (List BoolVarRef) → List BoolVarRef → Type 0
ColumnResult n num bs col =
    All (IsRef n) col × ((v : Valuation) → values v col ≡ column_of num (rows v bs))

column-ColumnResult :
    (n num m : ℕ) (ints : List IntVar) (bs : List (List BoolVarRef)) (ps : List IntVarRef)
    → AreVars ints bs ps
    → num < m
    → All (λ b. length b ≡ m) bs
    → All (All (IsRef n)) bs
    → Returns (column num ps ints) (ColumnResult n num bs)
unfolding column
column-ColumnResult n num m ints [] [] h lt w r = ([], refl, (tt, λ v. refl))
column-ColumnResult n num m ints (b ∷ bs) (p ∷ ps) h lt w r =
    let (x, found, ref, value) = get_elem?-IsRef n b num (omega (arith, w.0)) r.0 in
    let (col, run, (refs, vals)) = column-ColumnResult n num m ints bs ps h.1 lt w.1 r.1 in
    (
      x ∷ col,
      rw (h.0.found) (rw (h.0.bools, found) (rw run)),
      ((ref, refs), λ v. ap₂ (λ a c. a ∷ c) (sym (value v)) (vals v)),
    )
column-ColumnResult n num m ints [] (p ∷ ps) h lt w r = elim h [ ]
column-ColumnResult n num m ints (b ∷ bs) [] h lt w r = elim h [ ]

ColumnsHot-congr :
    {n : ℕ} (v w : Valuation) (num k : ℕ) (bs : List (List BoolVarRef))
    → Agree n v w
    → All (All (IsRef n)) bs
    → ColumnsHot num k (rows v bs)
    → ColumnsHot num k (rows w bs)
ColumnsHot-congr v w num k bs agree r h = subst (ColumnsHot num k) (rows_congr v w bs agree r) h

distinct-Encodes :
    (num k m : ℕ) (bs : List (List BoolVarRef)) (ps : List IntVarRef) (s : Solver)
    → IsValid s
    → AreVars s.ints bs ps
    → num + k ≤ m
    → All (λ b. length b ≡ m) bs
    → All (All (IsRef (vars s))) bs
    → Returns
        (distinct num k ps s)
        λ s'. Encodes s s' (λ v. ColumnsHot num k (rows v bs)) (λ v. ColumnsHot num k (rows v bs))
unfolding distinct
distinct-Encodes num zero m bs ps s h a lt w r =
    (s, refl, Encodes_map (unchanged s h) (λ v p. tt) (λ v q. tt))
distinct-Encodes num (suc k) m bs ps s h a lt w r =
    let (col, run, (refs, vals)) =
      column-ColumnResult (vars s) num m s.ints bs ps a (omega arith) w r in
    let one = exactly_one-Encodes col s h refs in
    let count = λ (v : Valuation). count_true-ones v col ∙ ap ones (vals v) in
    let (s', run', rest) =
      distinct-Encodes (suc num) k m bs ps (exactly_one col s) one.valid
        (AreVars-kept s.ints (exactly_one col s).ints bs ps one.ints_kept a) (omega arith) w
        (All-mono _ _ (λ b. IsRef-grow b one.grows) bs r) in
    (
      s',
      rw run run',
      Encodes_map
          (Encodes_then (λ v. ColumnsHot num (suc k) (rows v bs)) one rest (λ v p. count v ∙ p.0)
            (λ v u p agree q. ColumnsHot-congr v u (suc num) k bs agree r p.1))
          (λ v p. p) (λ v q. (sym (count v) ∙ q.0, q.1)),
    )

-- `n` rows and `n` columns with one true entry each.
abbrev pub IsPermMatrix : ℕ → List (List Bool) → Type 0
IsPermMatrix n xs = AreHot n n xs × ColumnsHot 0 n xs

pub record PermResult (n : ℕ) (s : Solver) (r : List IntVarRef × Solver) : Type 0 where
  pub bs : List (List BoolVarRef)
  pub are_vars : AreVars r.1.ints bs r.0
  pub size : length bs ≡ n
  pub widths : All (λ b. length b ≡ n) bs
  pub refs : All (All (IsRef (vars r.1))) bs
  pub offers :
      Offers s r.1 (IsPermMatrix n) (λ w xs. rows w bs ≡ xs) (λ w. IsPermMatrix n (rows w bs))

-- On a valid solver and for n > 0 `newPermutation` succeeds with n integer variables. Their
-- references form a permutation matrix in each model, and each model of the solver becomes one with
-- any permutation matrix.
pub new_permutation-PermResult :
    (n : ℕ) (s : Solver) → IsValid s → 0 < n → Returns (new_permutation n s) (PermResult n s)
unfolding new_permutation
new_permutation-PermResult n s h lt =
    let r = int_vars n n s in
    let a = int_vars-IntsResult n n s h lt in
    let (s', run, step) =
      distinct-Encodes 0 n n a.bs r.0 r.1 a.offers.valid a.are_vars (omega arith) a.widths a.refs in
    let both =
      Offers_then {Ok' = IsPermMatrix n} a.offers step (λ xs okay. okay.0)
        (λ w xs okay shown q. subst (ColumnsHot 0 n) (sym shown) okay.1) in
    (
      (r.0, s'),
      rw run,
      record {
        bs = a.bs;
        are_vars = AreVars-kept r.1.ints s'.ints a.bs r.0 step.ints_kept a.are_vars;
        size = a.size;
        widths = a.widths;
        refs = All-mono _ _ (λ b. IsRef-grow b step.grows) a.bs a.refs;
        offers =
            Offers_map (λ xs. xs) both (λ xs okay. okay) (λ w xs okay shown. shown) both.shows_congr
              (λ w q. q);
      },
    )
