-- ===== src/Constraints/Arrays.antt =====
-- `boolArrayAndReif` and `boolArrayOrReif` of core/ConstraintSolver.cc.
use phd_thesis_src.Prelude.{
  ◌≡◌, ◌≤◌, refl, false, ◌&&◌, ◌||◌, List, [], ◌∷◌, arith, All, any, all, ◌∙◌, sym, Result, ok, err,
  undefined_access, Returns,
}
use phd_thesis_src.Sat.Semantics.{Valuation}
use phd_thesis_src.Constraints.{BoolVarRef, Solver, new_bool_var}
use phd_thesis_src.Constraints.Semantics.{
  ref_value, IsRef, vars, IsValid, IsRef-grow, ref_value_congr, any_congr, all_congr,
}
use phd_thesis_src.Constraints.Encodes.{Encodes, Encodes_then, Encodes_map}
use phd_thesis_src.Constraints.Fresh.{
  IsRef-new_bool_var, new_bool_var-vars, Encodes_fresh, IsValid-new_bool_var,
}
use phd_thesis_src.Constraints.Gates.{
  bool_and_reif₂, bool_or_reif₂, AndGate, OrGate, bool_and_reif₂-Encodes, bool_or_reif₂-Encodes,
}
use phd_thesis_src.Constraints.Cardinality.{count_true}

-- The loop from `i = 1`, where `ti` is the accumulator and `b ∷ bs` the rest of the array.
and_chain : BoolVarRef → BoolVarRef → List BoolVarRef → BoolVarRef → Solver → Solver
and_chain ti b [] t s = bool_and_reif₂ b ti t s
and_chain ti b (c ∷ cs) t s =
    let (ti₁, s₁) = new_bool_var s in and_chain ti₁ c cs t (bool_and_reif₂ ti b ti₁ s₁)

pub bool_array_and_reif : List BoolVarRef → BoolVarRef → Solver → Result Solver
unfolding and_chain
bool_array_and_reif [] t s = err undefined_access
bool_array_and_reif (b ∷ []) t s = ok (bool_and_reif₂ b b t s)
bool_array_and_reif (b ∷ c ∷ cs) t s = ok (and_chain b c cs t s)

or_chain : BoolVarRef → BoolVarRef → List BoolVarRef → BoolVarRef → Solver → Solver
or_chain ti b [] t s = bool_or_reif₂ b ti t s
or_chain ti b (c ∷ cs) t s =
    let (ti₁, s₁) = new_bool_var s in or_chain ti₁ c cs t (bool_or_reif₂ ti b ti₁ s₁)

pub bool_array_or_reif : List BoolVarRef → BoolVarRef → Solver → Result Solver
unfolding or_chain
bool_array_or_reif [] t s = err undefined_access
bool_array_or_reif (b ∷ []) t s = ok (bool_or_reif₂ b b t s)
bool_array_or_reif (b ∷ c ∷ cs) t s = ok (or_chain b c cs t s)

-- `t` is the conjunction of the array.
abbrev pub AndArray : List BoolVarRef → BoolVarRef → Valuation → Type 0
AndArray bs t v = ref_value v t ≡ all (ref_value v) bs

-- `t` is the disjunction of the array.
abbrev pub OrArray : List BoolVarRef → BoolVarRef → Valuation → Type 0
OrArray bs t v = ref_value v t ≡ any (ref_value v) bs

and_chain-Encodes :
    (ti b : BoolVarRef) (bs : List BoolVarRef) (t : BoolVarRef) (s : Solver)
    → IsValid s
    → All (IsRef (vars s)) (t ∷ ti ∷ b ∷ bs)
    → Encodes s (and_chain ti b bs t s) (AndArray (ti ∷ b ∷ bs) t) (AndArray (ti ∷ b ∷ bs) t)
unfolding and_chain
and_chain-Encodes ti b [] t s h r =
    Encodes_map (bool_and_reif₂-Encodes s h b ti t r.1.1.0 r.1.0 r.0) (λ v p. ground arith)
      (λ v q. ground arith)
and_chain-Encodes ti b (c ∷ cs) t s h r =
    let ti₁ = (new_bool_var s).0 in
    let s₁ = (new_bool_var s).1 in
    let r₁ =
      IsRef-grow {m = vars s₁} (t ∷ ti ∷ b ∷ c ∷ cs) (omega (arith, new_bool_var-vars s h)) r in
    let fresh = IsRef-new_bool_var s h in
    let gate =
      bool_and_reif₂-Encodes s₁ (IsValid-new_bool_var s h) ti b ti₁ r₁.1.0 r₁.1.1.0 fresh in
    let rest =
      and_chain-Encodes ti₁ c cs t (bool_and_reif₂ ti b ti₁ s₁) gate.valid
        (IsRef-grow (t ∷ ti₁ ∷ c ∷ cs) gate.grows (r₁.0, (fresh, r₁.1.1.1))) in
    let both =
      Encodes_then (λ v. AndGate ti b ti₁ v × AndArray (ti₁ ∷ c ∷ cs) t v) gate rest (λ v p. p.0)
        (λ v w p agree q.
          sym (ref_value_congr v w t agree r₁.0)
          ∙ p.1
          ∙ all_congr v w agree (ti₁ ∷ c ∷ cs) (fresh, r₁.1.1.1)) in
    Encodes_map
      (Encodes_fresh s h (AndArray (ti ∷ b ∷ c ∷ cs) t) (λ v. ref_value v ti && ref_value v b) both
        (λ v w p agree e. ground (
          arith,
          ref_value_congr v w t agree r.0,
          ref_value_congr v w ti agree r.1.0,
          ref_value_congr v w b agree r.1.1.0,
          all_congr v w agree (c ∷ cs) r.1.1.1,
        )))
      (λ v p. p) (λ v q. ground (arith, q.0, q.1))

-- Where at most one entry is true `t` is the disjunction.
abbrev pub OrArrayOnce : List BoolVarRef → BoolVarRef → Valuation → Type 0
OrArrayOnce bs t v = count_true v bs ≤ 1 → ref_value v t ≡ any (ref_value v) bs

any-count_zero :
    (v : Valuation) (bs : List BoolVarRef) → count_true v bs ≡ 0 → any (ref_value v) bs ≡ false
any-count_zero v [] h = refl
any-count_zero v (b ∷ bs) h = ground (arith, any-count_zero v bs)

or_chain-Encodes :
    (ti b : BoolVarRef) (bs : List BoolVarRef) (t : BoolVarRef) (s : Solver)
    → IsValid s
    → All (IsRef (vars s)) (t ∷ ti ∷ b ∷ bs)
    → Encodes s (or_chain ti b bs t s) (OrArray (ti ∷ b ∷ bs) t) (OrArrayOnce (ti ∷ b ∷ bs) t)
unfolding or_chain
or_chain-Encodes ti b [] t s h r =
    Encodes_map (bool_or_reif₂-Encodes s h b ti t r.1.1.0 r.1.0 r.0) (λ v p. ground arith)
      (λ v q once. ground arith)
or_chain-Encodes ti b (c ∷ cs) t s h r =
    let ti₁ = (new_bool_var s).0 in
    let s₁ = (new_bool_var s).1 in
    let r₁ =
      IsRef-grow {m = vars s₁} (t ∷ ti ∷ b ∷ c ∷ cs) (omega (arith, new_bool_var-vars s h)) r in
    let fresh = IsRef-new_bool_var s h in
    let gate = bool_or_reif₂-Encodes s₁ (IsValid-new_bool_var s h) ti b ti₁ r₁.1.0 r₁.1.1.0 fresh in
    let rest =
      or_chain-Encodes ti₁ c cs t (bool_or_reif₂ ti b ti₁ s₁) gate.valid
        (IsRef-grow (t ∷ ti₁ ∷ c ∷ cs) gate.grows (r₁.0, (fresh, r₁.1.1.1))) in
    let both =
      Encodes_then (λ v. OrGate ti b ti₁ v × OrArray (ti₁ ∷ c ∷ cs) t v) gate rest (λ v p. p.0)
        (λ v w p agree q.
          sym (ref_value_congr v w t agree r₁.0)
          ∙ p.1
          ∙ any_congr v w agree (ti₁ ∷ c ∷ cs) (fresh, r₁.1.1.1)) in
    Encodes_map
      (Encodes_fresh s h (OrArray (ti ∷ b ∷ c ∷ cs) t) (λ v. ref_value v ti || ref_value v b) both
        (λ v w p agree e. ground (
          arith,
          ref_value_congr v w t agree r.0,
          ref_value_congr v w ti agree r.1.0,
          ref_value_congr v w b agree r.1.1.0,
          any_congr v w agree (c ∷ cs) r.1.1.1,
        )))
      (λ v p. p) (λ v q once. ground (arith, q.0, q.1, any-count_zero v (c ∷ cs)))

module _ (b : BoolVarRef) (bs : List BoolVarRef) (t : BoolVarRef) (s : Solver) (h : IsValid s) where
  -- On a valid solver, references to its variables and an array that is not empty
  -- `boolArrayAndReif` succeeds. Its models have `t` as the conjunction of the array, and each
  -- model of the solver with that becomes one when the new variables get values.
  pub bool_array_and_reif-Encodes :
      All (IsRef (vars s)) (t ∷ b ∷ bs)
      → Returns
          (bool_array_and_reif (b ∷ bs) t s)
          λ s'. Encodes s s' (AndArray (b ∷ bs) t) (AndArray (b ∷ bs) t)
  unfolding bool_array_and_reif
  bool_array_and_reif-Encodes r = go bs r
    where
      go :
          (cs : List BoolVarRef)
          → All (IsRef (vars s)) (t ∷ b ∷ cs)
          → Returns
              (bool_array_and_reif (b ∷ cs) t s)
              λ s'. Encodes s s' (AndArray (b ∷ cs) t) (AndArray (b ∷ cs) t)
      go [] r = (
        bool_and_reif₂ b b t s,
        refl,
        Encodes_map (bool_and_reif₂-Encodes s h b b t r.1.0 r.1.0 r.0) (λ v p. ground arith)
            (λ v q. ground arith),
      )
      go (c ∷ cs) r = (and_chain b c cs t s, refl, and_chain-Encodes b c cs t s h r)

  -- On a valid solver, references to its variables and an array of two references or more
  -- `boolArrayOrReif` succeeds. In its models `t` is the disjunction of the array where at most one
  -- of the references is true, and each model of the solver in which `t` is the disjunction becomes
  -- one when the new variables get values.
  pub bool_array_or_reif-Encodes :
      (c : BoolVarRef)
      → All (IsRef (vars s)) (t ∷ b ∷ c ∷ bs)
      → Returns
          (bool_array_or_reif (b ∷ c ∷ bs) t s)
          λ s'. Encodes s s' (OrArray (b ∷ c ∷ bs) t) (OrArrayOnce (b ∷ c ∷ bs) t)
  unfolding bool_array_or_reif
  bool_array_or_reif-Encodes c r = (or_chain b c bs t s, refl, or_chain-Encodes b c bs t s h r)
