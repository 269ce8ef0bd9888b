-- ===== src/Constraints/Answers/Decode.antt =====
-- `getBoolAssignment`, `getIntAssignment` and `decodeIntArray` after a search that found a model.
use phd_thesis_src.Prelude.{
  ℕ, zero, suc, ◌+◌, ◌/◌, ◌%◌, ◌<◌, ◌==◌, ◌≡◌, ◌≢◌, refl, ap, ◌∙◌, Bool, true, false, not, List, [],
  ◌∷◌, map, ℤ, pos, negsuc, arith, All, length, get_elem?, get_or, some, ok, if◌then◌else◌,
  Bool-cases, inl, inr,
}
use phd_thesis_src.Sat.{Lbool, l_true, l_false, l_undef, lbool_xor}
use phd_thesis_src.Sat.Semantics.{Valuation, is_true, truth}
use phd_thesis_src.Constraints.{BoolVarRef, IntVarRef, Solver}
use phd_thesis_src.Constraints.Semantics.{ref_value, values, IsRef, vars, to_lit-pos, to_lit-negsuc}
use phd_thesis_src.Constraints.Ints.Single.{ones, IsVar}
use phd_thesis_src.Constraints.Ints.Rows.{rows, AreVars}
use phd_thesis_src.Constraints.Answers.{
  model_value, get_bool_assignment, first_true, get_int_assignment, decode_int_array,
}

-- The model that the search left has a value for each variable.
pub record HasModel (s : Solver) : Type 0 where
  pub size : length s.sat.model ≡ vars s
  pub total : (i : ℕ) → i < vars s → get_or s.sat.model i l_undef ≢ l_undef

abbrev pub lbool_of : Bool → Lbool
lbool_of true = l_true
lbool_of false = l_false

-- The valuation of the model.
abbrev model_of : Solver → Valuation
model_of s = truth s.sat.model

get_elem?-model :
    (m : List Lbool) (k : ℕ)
    → k < length m
    → get_or m k l_undef ≢ l_undef
    → get_elem? m k ≡ some (lbool_of (is_true (get_or m k l_undef)))
get_elem?-model [] k lt ne = absurd (omega arith)
get_elem?-model (l_true ∷ m) zero lt ne = refl
get_elem?-model (l_false ∷ m) zero lt ne = refl
get_elem?-model (l_undef ∷ m) zero lt ne = absurd (ne refl)
get_elem?-model (l ∷ m) (suc k) lt ne = get_elem?-model m k (omega arith) ne

lbool_xor-not : (x : Bool) → lbool_xor (lbool_of x) true ≡ lbool_of (not x)
lbool_xor-not true = refl
lbool_xor-not false = refl

-- The value of a reference is its value in the model.
pub get_bool_assignment-ref_value :
    (s : Solver) (b : BoolVarRef)
    → HasModel s
    → IsRef (vars s) b
    → get_bool_assignment b s ≡ ok (lbool_of (ref_value (model_of s) b))
unfolding get_bool_assignment model_value
get_bool_assignment-ref_value s (pos zero) h r = absurd (omega arith)
get_bool_assignment-ref_value s (pos (suc k)) h r =
    let half : (k + k) / 2 ≡ k = omega arith in
    let even : ((k + k) % 2 == 1) ≡ false = ground arith in
    rw
      (
        to_lit-pos,
        half,
        even,
        get_elem?-model s.sat.model k (omega (arith, h.size)) (h.total k (omega arith)),
      )
      refl
get_bool_assignment-ref_value s (negsuc k) h r =
    let half : (k + k + 1) / 2 ≡ k = omega arith in
    let odd : ((k + k + 1) % 2 == 1) ≡ true = ground arith in
    rw
      (
        to_lit-negsuc,
        half,
        odd,
        get_elem?-model s.sat.model k (omega (arith, h.size)) (h.total k (omega arith)),
      )
      (ap ok (lbool_xor-not (is_true (get_or s.sat.model k l_undef))))

-- The position of the first true entry.
abbrev first_index : List Bool → ℕ
first_index [] = 0
first_index (x ∷ xs) = if x then 0 else suc (first_index xs)

pub first_index-true :
    (xs : List Bool)
    → 0 < ones xs
    → (first_index xs < length xs) × (get_or xs (first_index xs) false ≡ true)
first_index-true [] h = absurd (omega arith)
first_index-true (true ∷ xs) h = (omega arith, refl)
first_index-true (false ∷ xs) h =
    let (lt, e) = first_index-true xs (omega arith) in (omega arith, e)

first_true-index :
    (s : Solver) (lb : ℤ) (j : ℕ) (bs : List BoolVarRef)
    → HasModel s
    → All (IsRef (vars s)) bs
    → 0 < ones (values (model_of s) bs)
    → first_true lb (pos j) bs s ≡ ok (pos (j + first_index (values (model_of s) bs)))
unfolding first_true
first_true-index s lb j [] h r some_one = absurd (omega arith)
first_true-index s lb j (b ∷ bs) h r some_one =
    rw (get_bool_assignment-ref_value s b h r.0) (elim (Bool-cases (ref_value (model_of s) b)) [
      | inl e ↦ let here : j + 0 ≡ j = omega arith in rw (e, here) refl
      | inr e ↦
          let later : j + suc (first_index (values (model_of s) bs))
              ≡ (j + 1) + first_index (values (model_of s) bs) =
            omega arith in
          rw (e, later) (first_true-index s lb (j + 1) bs h r.1 (ground arith))
    ])

get_int_assignment-index :
    (s : Solver) (p : IntVarRef) (bs : List BoolVarRef)
    → HasModel s
    → IsVar s.ints bs p
    → All (IsRef (vars s)) bs
    → 0 < ones (values (model_of s) bs)
    → get_int_assignment p s ≡ ok (pos (first_index (values (model_of s) bs)))
unfolding get_int_assignment
get_int_assignment-index s p bs h v r some_one = rw (v.found) (
    rw (v.lb, v.bools)
      (first_true-index s (pos 0) 0 bs h r some_one ∙ ap (λ k. ok (pos k)) (omega arith)))

abbrev pub decoded : List (List Bool) → List ℕ
decoded [] = []
decoded (x ∷ xs) = first_index x ∷ decoded xs

-- After a search that left a value for each variable, and where each of the integer variables from
-- 0 on has a true reference, `decodeIntArray` gives the numbers of the first ones.
pub decode_int_array-decoded :
    (s : Solver) (bs : List (List BoolVarRef)) (ps : List IntVarRef)
    → HasModel s
    → AreVars s.ints bs ps
    → All (All (IsRef (vars s))) bs
    → All (λ x. 0 < ones x) (rows (model_of s) bs)
    → decode_int_array ps s ≡ ok (map pos (decoded (rows (model_of s) bs)))
unfolding decode_int_array
decode_int_array-decoded s [] [] h v r some_one = refl
decode_int_array-decoded s (b ∷ bs) (p ∷ ps) h v r some_one =
    rw (get_int_assignment-index s p b h v.0 r.0 some_one.0)
      (rw (decode_int_array-decoded s bs ps h v.1 r.1 some_one.1) refl)
decode_int_array-decoded s [] (p ∷ ps) h v r some_one = elim v [ ]
decode_int_array-decoded s (b ∷ bs) [] h v r some_one = elim v [ ]
