-- ===== src/Constraints/Graphs/Tables.antt =====
-- The integer variables of `newPermutation` as a table of references.
use phd_thesis_src.Prelude.{
  ℕ, zero, suc, ◌+◌, ◌<◌, ◌≤◌, ◌==◌, ◌≡◌, refl, sym, ap, ap₂, ◌∙◌, subst, Bool, false, List, [],
  ◌∷◌, pos, arith, All, length, get_elem?, get_or, some, if◌then◌else◌, Bool-cases, inl, inr,
}
use phd_thesis_src.Sat.Semantics.{Valuation}
use phd_thesis_src.Constraints.{BoolVarRef, IntVarRef, IntVar, Solver}
use phd_thesis_src.Constraints.Semantics.{ref_value, values, IsRef, vars}
use phd_thesis_src.Constraints.Ints.Single.{ones, OneHot, IsVar}
use phd_thesis_src.Constraints.Ints.Rows.{rows, AreVars}
use phd_thesis_src.Constraints.Ints.Reads.{int_eq_reif-IsVar}
use phd_thesis_src.Constraints.Ints.Permutations.{IsPermMatrix, ColumnsHot, column_of}
use phd_thesis_src.Constraints.Graphs.Tally.{tally, IsPerm}
use phd_thesis_src.Constraints.Graphs.Pairs.{table, PermRefs}

-- The reference for "entry k is i".
abbrev pub ref_at : List (List BoolVarRef) → ℕ → ℕ → BoolVarRef
ref_at bs k i = get_or (get_or bs k []) i (pos 1)

-- A row that is there.
record RowAt (n : ℕ) (ints : List IntVar) (m : ℕ) (bs : List (List BoolVarRef))
    (ps : List IntVarRef) (k : ℕ) : Type 0 where
  var : IntVarRef
  found : get_elem? ps k ≡ some var
  is_var : IsVar ints (get_or bs k []) var
  width : length (get_or bs k []) ≡ n
  refs : All (IsRef m) (get_or bs k [])

AreVars-RowAt :
    (n m : ℕ) (ints : List IntVar) (bs : List (List BoolVarRef)) (ps : List IntVarRef) (k : ℕ)
    → AreVars ints bs ps
    → All (λ b. length b ≡ n) bs
    → All (All (IsRef m)) bs
    → k < length bs
    → RowAt n ints m bs ps k
AreVars-RowAt n m ints [] ps k h w r lt = absurd (omega arith)
AreVars-RowAt n m ints (b ∷ bs) [] k h w r lt = elim h [ ]
AreVars-RowAt n m ints (b ∷ bs) (p ∷ ps) zero h w r lt = record {
  var = p;
  found = refl;
  is_var = h.0;
  width = w.0;
  refs = r.0;
}
AreVars-RowAt n m ints (b ∷ bs) (p ∷ ps) (suc k) h w r lt =
    let a = AreVars-RowAt n m ints bs ps k h.1 w.1 r.1 (omega arith) in
    record { var = a.var; found = a.found; is_var = a.is_var; width = a.width; refs = a.refs }

get_or-IsRef :
    (m : ℕ) (b : List BoolVarRef) (i : ℕ)
    → All (IsRef m) b
    → i < length b
    → (get_elem? b i ≡ some (get_or b i (pos 1))) × IsRef m (get_or b i (pos 1))
get_or-IsRef m [] i r lt = absurd (omega arith)
get_or-IsRef m (x ∷ b) zero r lt = (refl, r.0)
get_or-IsRef m (x ∷ b) (suc i) r lt = get_or-IsRef m b i r.1 (omega arith)

pub AreVars-PermRefs :
    (n : ℕ) (s : Solver) (bs : List (List BoolVarRef)) (ps : List IntVarRef)
    → AreVars s.ints bs ps
    → length bs ≡ n
    → All (λ b. length b ≡ n) bs
    → All (All (IsRef (vars s))) bs
    → PermRefs n s ps (ref_at bs)
AreVars-PermRefs n s bs ps h size w r k i lk li =
    let a = AreVars-RowAt n (vars s) s.ints bs ps k h w r (omega arith) in
    let (there, ref) = get_or-IsRef (vars s) (get_or bs k []) i a.refs (omega (arith, a.width)) in
    record {
      var = a.var;
      found = a.found;
      reif = int_eq_reif-IsVar s (get_or bs k []) a.var i (ref_at bs k i) a.is_var there;
      ref = ref;
    }

-- The counts of a list and of a table agree.
tally-ones :
    (a : ℕ → Bool) (j : ℕ) (xs : List Bool)
    → ((i : ℕ) → i < length xs → a (j + i) ≡ get_or xs i false)
    → tally a j (length xs) ≡ ones xs
tally-ones a j [] h = refl
tally-ones a j (x ∷ xs) h =
    let here : a j ≡ x = ap a (omega arith) ∙ h 0 (omega arith) in
    let rest = tally-ones a (suc j) xs (λ i lt. ap a (omega arith) ∙ h (suc i) (omega arith)) in
    ap₂ (λ b c. (if b then 1 else 0) + c) here rest

get_or-values :
    (v : Valuation) (b : List BoolVarRef) (i : ℕ)
    → i < length b
    → get_or (values v b) i false ≡ ref_value v (get_or b i (pos 1))
get_or-values v [] i lt = absurd (omega arith)
get_or-values v (x ∷ b) zero lt = refl
get_or-values v (x ∷ b) (suc i) lt = get_or-values v b i (omega arith)

get_or-rows :
    (v : Valuation) (bs : List (List BoolVarRef)) (k : ℕ)
    → get_or (rows v bs) k [] ≡ values v (get_or bs k [])
get_or-rows v [] k = refl
get_or-rows v (b ∷ bs) zero = refl
get_or-rows v (b ∷ bs) (suc k) = get_or-rows v bs k

get_or-All {ℓ} :
    {A : Type 0} (P : A → Type ℓ) (xs : List A) (k : ℕ) (d : A)
    → All P xs
    → k < length xs
    → P (get_or xs k d)
get_or-All P [] k d h lt = absurd (omega arith)
get_or-All P (x ∷ xs) zero d h lt = h.0
get_or-All P (x ∷ xs) (suc k) d h lt = get_or-All P xs k d h.1 (omega arith)

ColumnsHot-at :
    (num m : ℕ) (xs : List (List Bool)) (i : ℕ)
    → ColumnsHot num m xs
    → num ≤ i
    → i < num + m
    → ones (column_of i xs) ≡ 1
ColumnsHot-at num zero xs i h p q = absurd (omega arith)
ColumnsHot-at num (suc m) xs i h p q = elim (Bool-cases (num == i)) [
  | inl e ↦ let same : num ≡ i = ground arith in subst (λ c. ones (column_of c xs) ≡ 1) same h.0
  | inr e ↦
      let later : num < i = ground arith in
      ColumnsHot-at (suc num) m xs i h.1 (omega arith) (omega arith)
]

length-column_of : (i : ℕ) (xs : List (List Bool)) → length (column_of i xs) ≡ length xs
length-column_of i [] = refl
length-column_of i (x ∷ xs) = ap suc (length-column_of i xs)

get_or-column_of :
    (i k : ℕ) (xs : List (List Bool))
    → k < length xs
    → get_or (column_of i xs) k false ≡ get_or (get_or xs k []) i false
get_or-column_of i k [] lt = absurd (omega arith)
get_or-column_of i zero (x ∷ xs) lt = refl
get_or-column_of i (suc k) (x ∷ xs) lt = get_or-column_of i k xs (omega arith)

length-rows : (v : Valuation) (bs : List (List BoolVarRef)) → length (rows v bs) ≡ length bs
length-rows v [] = refl
length-rows v (b ∷ bs) = ap suc (length-rows v bs)

-- The table of a matrix of truth values.
abbrev pub cell_of : List (List Bool) → ℕ → ℕ → Bool
cell_of xs k i = get_or (get_or xs k []) i false

pub IsPermMatrix-IsPerm :
    (n : ℕ) (xs : List (List Bool)) → IsPermMatrix n xs → IsPerm n (cell_of xs)
IsPermMatrix-IsPerm n xs (hot, columns) = record {
  rows = λ k lt.
      let row = get_or-All (OneHot n) xs k [] hot.1 (omega arith) in
      sym (ap (tally (cell_of xs k) 0) row.0)
      ∙ tally-ones (cell_of xs k) 0 (get_or xs k []) (λ i l. ap (cell_of xs k) (omega arith))
      ∙ row.1;
  columns = λ i lt.
      sym (ap (tally (λ k. cell_of xs k i) 0) (length-column_of i xs ∙ hot.0))
      ∙ tally-ones (λ k. cell_of xs k i) 0 (column_of i xs)
          (λ k l.
            ap (λ c. cell_of xs c i) (omega arith)
            ∙ sym (get_or-column_of i k xs (omega (arith, length-column_of i xs))))
      ∙ ColumnsHot-at 0 n xs i columns (omega arith) (omega arith);
}

-- The values of the table of references are the table of the values.
pub table-cell_of :
    (v : Valuation) (n : ℕ) (bs : List (List BoolVarRef)) (k i : ℕ)
    → length bs ≡ n
    → All (λ b. length b ≡ n) bs
    → k < n
    → i < n
    → table v (ref_at bs) k i ≡ cell_of (rows v bs) k i
table-cell_of v n bs k i size w lk li =
    let width = get_or-All (λ b. length b ≡ n) bs k [] w (omega arith) in
    sym (get_or-values v (get_or bs k []) i (omega (arith, width)))
    ∙ ap (λ b. get_or b i false) (sym (get_or-rows v bs k))
