-- ===== src/Constraints/Gates.antt =====
-- `boolIffReif`, `boolAndReif` and `boolOrReif` of core/ConstraintSolver.cc.
use phd_thesis_src.Prelude.{All, abs-neg_ℤ, ◌≡◌, true, ◌&&◌, ◌||◌, iff, [], ◌∷◌, List, arith}
use phd_thesis_src.Constraints.{
  BoolVarRef, Solver, neg, new_bool_var, bool_array_or, at_least_one, bool_or₂, bool_or₃,
}
use phd_thesis_src.Sat.Semantics.{Valuation}
use phd_thesis_src.Constraints.Semantics.{
  ref_value, IsRef, vars, IsValid, ref_value-neg, IsRef-mono, ref_value_congr,
}
use phd_thesis_src.Constraints.Encodes.{Encodes, Encodes_map, Always}
use phd_thesis_src.Constraints.Clauses.{post_all, post_all-Encodes, AllSome}
use phd_thesis_src.Constraints.Fresh.{
  IsRef-new_bool_var, new_bool_var-vars, Encodes_fresh, IsValid-new_bool_var,
}

pub bool_iff_reif : BoolVarRef → BoolVarRef → BoolVarRef → Solver → Solver
bool_iff_reif b₁ b₂ t s =
    let s₁ = bool_or₃ b₁ b₂ t s in
    let s₂ = bool_or₃ (neg b₁) (neg b₂) t s₁ in
    let s₃ = bool_or₃ b₁ (neg b₂) (neg t) s₂ in bool_or₃ (neg b₁) b₂ (neg t) s₃

pub bool_and_reif₂ : BoolVarRef → BoolVarRef → BoolVarRef → Solver → Solver
bool_and_reif₂ b₁ b₂ t s =
    let s₁ = bool_or₂ b₁ (neg t) s in
    let s₂ = bool_or₂ b₂ (neg t) s₁ in bool_or₃ (neg b₁) (neg b₂) t s₂

pub bool_and_reif₃ : BoolVarRef → BoolVarRef → BoolVarRef → BoolVarRef → Solver → Solver
bool_and_reif₃ b₁ b₂ b₃ t s =
    let s₁ = bool_or₂ b₁ (neg t) s in
    let s₂ = bool_or₂ b₂ (neg t) s₁ in
    let s₃ = bool_or₂ b₃ (neg t) s₂ in bool_array_or (neg b₁ ∷ neg b₂ ∷ neg b₃ ∷ t ∷ []) s₃

pub bool_or_reif₂ : BoolVarRef → BoolVarRef → BoolVarRef → Solver → Solver
bool_or_reif₂ b₁ b₂ t s =
    let s₁ = bool_or₃ b₁ b₂ (neg t) s in
    let s₂ = bool_or₃ b₁ (neg b₂) t s₁ in bool_or₃ (neg b₁) b₂ t s₂

pub bool_or_reif₃ : BoolVarRef → BoolVarRef → BoolVarRef → BoolVarRef → Solver → Solver
bool_or_reif₃ b₁ b₂ b₃ t s =
    let (t₁, s₁) = new_bool_var s in let s₂ = bool_or_reif₂ b₁ b₂ t₁ s₁ in bool_or_reif₂ t₁ b₃ t s₂

-- The intended meanings.
abbrev pub IffGate : BoolVarRef → BoolVarRef → BoolVarRef → Valuation → Type 0
IffGate b₁ b₂ t v = ref_value v t ≡ iff (ref_value v b₁) (ref_value v b₂)

abbrev pub AndGate : BoolVarRef → BoolVarRef → BoolVarRef → Valuation → Type 0
AndGate b₁ b₂ t v = ref_value v t ≡ (ref_value v b₁ && ref_value v b₂)

abbrev pub And₃Gate : BoolVarRef → BoolVarRef → BoolVarRef → BoolVarRef → Valuation → Type 0
And₃Gate b₁ b₂ b₃ t v = ref_value v t ≡ (ref_value v b₁ && ref_value v b₂ && ref_value v b₃)

-- `boolOrReif` leaves `t` free where both inputs are true.
abbrev pub OrGate : BoolVarRef → BoolVarRef → BoolVarRef → Valuation → Type 0
OrGate b₁ b₂ t v =
    ((ref_value v b₁ && ref_value v b₂) || iff (ref_value v t) (ref_value v b₁ || ref_value v b₂))
    ≡ true

-- The clauses of a gate are its meaning.
module _ (s : Solver) (h : IsValid s) where
  gate :
      (cs : List (List BoolVarRef)) (P : Valuation → Type 0)
      → All (All (IsRef (vars s))) cs
      → ((v : Valuation) → P v → AllSome cs v)
      → ((v : Valuation) → AllSome cs v → P v)
      → Encodes s (post_all cs s) P P
  gate cs P refs to from = Encodes_map (post_all-Encodes cs s h refs) to from

  module _ (b₁ b₂ t : BoolVarRef) (r₁ : IsRef (vars s) b₁) (r₂ : IsRef (vars s) b₂)
      (r : IsRef (vars s) t) where
    -- On a valid solver and references to its variables the clauses of `boolIffReif` mean that `t`
    -- is the equality of the two values.
    pub bool_iff_reif-Encodes :
        Encodes s (bool_iff_reif b₁ b₂ t s) (IffGate b₁ b₂ t) (IffGate b₁ b₂ t)
    unfolding bool_iff_reif bool_or₃ post_all at_least_one
    bool_iff_reif-Encodes =
        gate
          ((b₁ ∷ b₂ ∷ t ∷ [])
            ∷ (neg b₁ ∷ neg b₂ ∷ t ∷ [])
            ∷ (b₁ ∷ neg b₂ ∷ neg t ∷ [])
            ∷ (neg b₁ ∷ b₂ ∷ neg t ∷ [])
            ∷ [])
          (IffGate b₁ b₂ t) (omega (arith, abs-neg_ℤ b₁, abs-neg_ℤ b₂, abs-neg_ℤ t))
          (λ v p. ground (arith, ref_value-neg v b₁ r₁, ref_value-neg v b₂ r₂, ref_value-neg v t r))
          (λ v q. ground (arith, ref_value-neg v b₁ r₁, ref_value-neg v b₂ r₂, ref_value-neg v t r))

    -- On a valid solver and references to its variables the clauses of `boolAndReif` mean that `t`
    -- is the conjunction of the two values.
    pub bool_and_reif₂-Encodes :
        Encodes s (bool_and_reif₂ b₁ b₂ t s) (AndGate b₁ b₂ t) (AndGate b₁ b₂ t)
    unfolding bool_and_reif₂ bool_or₂ bool_or₃ post_all at_least_one
    bool_and_reif₂-Encodes =
        gate ((b₁ ∷ neg t ∷ []) ∷ (b₂ ∷ neg t ∷ []) ∷ (neg b₁ ∷ neg b₂ ∷ t ∷ []) ∷ [])
          (AndGate b₁ b₂ t) (omega (arith, abs-neg_ℤ b₁, abs-neg_ℤ b₂, abs-neg_ℤ t))
          (λ v p. ground (arith, ref_value-neg v b₁ r₁, ref_value-neg v b₂ r₂, ref_value-neg v t r))
          (λ v q. ground (arith, ref_value-neg v b₁ r₁, ref_value-neg v b₂ r₂, ref_value-neg v t r))

    -- On a valid solver and references to its variables the clauses of `boolOrReif` mean that `t`
    -- is the disjunction unless both values are true, where `t` is free.
    pub bool_or_reif₂-Encodes :
        Encodes s (bool_or_reif₂ b₁ b₂ t s) (OrGate b₁ b₂ t) (OrGate b₁ b₂ t)
    unfolding bool_or_reif₂ bool_or₂ bool_or₃ post_all at_least_one
    bool_or_reif₂-Encodes =
        gate ((b₁ ∷ b₂ ∷ neg t ∷ []) ∷ (b₁ ∷ neg b₂ ∷ t ∷ []) ∷ (neg b₁ ∷ b₂ ∷ t ∷ []) ∷ [])
          (OrGate b₁ b₂ t) (omega (arith, abs-neg_ℤ b₁, abs-neg_ℤ b₂, abs-neg_ℤ t))
          (λ v p. ground (arith, ref_value-neg v b₁ r₁, ref_value-neg v b₂ r₂, ref_value-neg v t r))
          (λ v q. ground (arith, ref_value-neg v b₁ r₁, ref_value-neg v b₂ r₂, ref_value-neg v t r))

    -- On a valid solver and references to its variables the clauses of `boolAndReif` mean that `t`
    -- is the conjunction of the three values.
    pub bool_and_reif₃-Encodes :
        (b₃ : BoolVarRef)
        → IsRef (vars s) b₃
        → Encodes s (bool_and_reif₃ b₁ b₂ b₃ t s) (And₃Gate b₁ b₂ b₃ t) (And₃Gate b₁ b₂ b₃ t)
    unfolding bool_and_reif₃ bool_or₂ bool_or₃ post_all at_least_one
    bool_and_reif₃-Encodes b₃ r₃ =
        gate
          ((b₁ ∷ neg t ∷ [])
            ∷ (b₂ ∷ neg t ∷ [])
            ∷ (b₃ ∷ neg t ∷ [])
            ∷ (neg b₁ ∷ neg b₂ ∷ neg b₃ ∷ t ∷ [])
            ∷ [])
          (And₃Gate b₁ b₂ b₃ t)
          (omega (arith, abs-neg_ℤ b₁, abs-neg_ℤ b₂, abs-neg_ℤ b₃, abs-neg_ℤ t))
          (λ v p. ground (
            arith,
            ref_value-neg v b₁ r₁,
            ref_value-neg v b₂ r₂,
            ref_value-neg v b₃ r₃,
            ref_value-neg v t r,
          ))
          (λ v q. ground (
            arith,
            ref_value-neg v b₁ r₁,
            ref_value-neg v b₂ r₂,
            ref_value-neg v b₃ r₃,
            ref_value-neg v t r,
          ))

-- A fresh variable for the equality of two references.
module _ (x y : BoolVarRef) (s : Solver) (h : IsValid s) (rx : IsRef (vars s) x)
    (ry : IsRef (vars s) y) where
  fresh_gate :
      let (t, s₁) = new_bool_var s in
      Encodes s₁ (bool_iff_reif x y t s₁) (IffGate x y t) (IffGate x y t)
  fresh_gate =
      let wider = new_bool_var-vars s h in
      bool_iff_reif-Encodes (new_bool_var s).1 (IsValid-new_bool_var s h) x y (new_bool_var s).0
        (IsRef-mono x (omega arith) rx) (IsRef-mono y (omega arith) ry) (IsRef-new_bool_var s h)

  pub IsRef-fresh_iff : let (t, s₁) = new_bool_var s in IsRef (vars (bool_iff_reif x y t s₁)) t
  IsRef-fresh_iff = IsRef-mono (new_bool_var s).0 fresh_gate.grows (IsRef-new_bool_var s h)

  pub fresh_iff-Encodes :
      let (t, s₁) = new_bool_var s in Encodes s (bool_iff_reif x y t s₁) Always (IffGate x y t)
  fresh_iff-Encodes =
      Encodes_fresh s h Always (λ v. iff (ref_value v x) (ref_value v y)) fresh_gate
        (λ v w p agree e.
          ground (arith, ref_value_congr v w x agree rx, ref_value_congr v w y agree ry))
