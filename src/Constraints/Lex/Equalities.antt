-- ===== src/Constraints/Lex/Equalities.antt =====
-- The variables for the equalities of the positions before the last.
use phd_thesis_src.Prelude.{ℕ, ◌≡◌, ◌-◌, refl, List, [], ◌∷◌, arith, All, length}
use phd_thesis_src.Sat.Semantics.{Valuation}
use phd_thesis_src.Constraints.{BoolVarRef, Solver, new_bool_var}
use phd_thesis_src.Constraints.Semantics.{
  ref_value_congr, Agree, IsRef, vars, IsValid, IsRef-mono, IsRef-grow,
}
use phd_thesis_src.Constraints.Encodes.{Encodes, Encodes_then, Always, unchanged}
use phd_thesis_src.Constraints.Gates.{bool_iff_reif, IffGate, fresh_iff-Encodes, IsRef-fresh_iff}
use phd_thesis_src.Constraints.Lex.{reify_prefix}

-- `rs` has a reference for each position but the last, true where the arrays agree.
abbrev pub Equalities : List BoolVarRef → List BoolVarRef → List BoolVarRef → Valuation → Type 0
Equalities [] [] [] v = Unit
Equalities [] (x ∷ []) (y ∷ []) v = Unit
Equalities (r ∷ rs) (x ∷ x' ∷ xs) (y ∷ ys) v = IffGate x y r v × Equalities rs (x' ∷ xs) ys v
Equalities rs xs ys v = ⊥

pub Equalities-congr :
    {n : ℕ} (v w : Valuation) (rs xs ys : List BoolVarRef)
    → Agree n v w
    → All (IsRef n) rs
    → All (IsRef n) xs
    → All (IsRef n) ys
    → Equalities rs xs ys v
    → Equalities rs xs ys w
Equalities-congr v w [] [] [] a r rx ry e = tt
Equalities-congr v w [] (x ∷ []) (y ∷ []) a r rx ry e = tt
Equalities-congr v w (r ∷ rs) (x ∷ x' ∷ xs) (y ∷ ys) a refs rx ry e = (
  ground (
    arith,
    e.0,
    ref_value_congr v w r a refs.0,
    ref_value_congr v w x a rx.0,
    ref_value_congr v w y a ry.0,
  ),
  Equalities-congr v w rs (x' ∷ xs) ys a refs.1 rx.1 ry.1 e.1,
)
Equalities-congr v w rs xs ys a r rx ry e = elim e [ ]

abbrev PrefixResult : List BoolVarRef → List BoolVarRef → Solver → List BoolVarRef × Solver → Type 0
PrefixResult xs ys s r =
    (length r.0 ≡ length xs - 1)
    × All (IsRef (vars r.1)) r.0
    × Encodes s r.1 Always (Equalities r.0 xs ys)

pub reify_prefix-Encodes :
    (xs ys : List BoolVarRef) (s : Solver)
    → length xs ≡ length ys
    → IsValid s
    → All (IsRef (vars s)) xs
    → All (IsRef (vars s)) ys
    → PrefixResult xs ys s (reify_prefix xs ys s)
unfolding reify_prefix
reify_prefix-Encodes [] [] s e h rx ry = (refl, tt, unchanged s h)
reify_prefix-Encodes [] (y ∷ ys) s e h rx ry = absurd (omega arith)
reify_prefix-Encodes (x ∷ xs) [] s e h rx ry = absurd (omega arith)
reify_prefix-Encodes (x ∷ []) (y ∷ []) s e h rx ry = (refl, tt, unchanged s h)
reify_prefix-Encodes (x ∷ []) (y ∷ y' ∷ ys) s e h rx ry = absurd (omega arith)
reify_prefix-Encodes (x ∷ x' ∷ xs) (y ∷ ys) s e h rx ry =
    let first = fresh_iff-Encodes x y s h rx.0 ry.0 in
    let (len, refs, rest) =
      reify_prefix-Encodes (x' ∷ xs) ys (bool_iff_reif x y (new_bool_var s).0 (new_bool_var s).1)
        (omega arith) first.valid (IsRef-grow (x' ∷ xs) first.grows rx.1)
        (IsRef-grow ys first.grows ry.1) in
    (
      omega (arith, len),
      (IsRef-mono (new_bool_var s).0 rest.grows (IsRef-fresh_iff x y s h rx.0 ry.0), refs),
      Encodes_then Always first rest (λ v p. p) (λ v w p agree q. p),
    )
