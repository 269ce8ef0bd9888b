-- ===== src/Constraints/Lex/Errors.antt =====
-- The errors of the lexicographic implications: lengths out of range.
use phd_thesis_src.Prelude.{
  ℕ, zero, suc, ◌<◌, ◌≤◌, ◌==◌, ◌≡◌, ◌⊎◌, inl, inr, refl, true, List, [], ◌∷◌, arith, length, err,
  undefined_access,
}
use phd_thesis_src.Constraints.{BoolVarRef, Solver, new_bool_var, set_bool_var}
use phd_thesis_src.Constraints.Gates.{bool_iff_reif}
use phd_thesis_src.Constraints.IffCache.{bool_iff_reif_cached}
use phd_thesis_src.Constraints.Lex.{
  lex_implication_clause, bool_arrays_lex_implication, less_at_clauses,
  bool_arrays_lex_lt_implication,
}

clause-undefined :
    (k : ℕ) (xs ys : List BoolVarRef) (s : Solver)
    → length xs ≤ k
    → lex_implication_clause k xs ys s ≡ err undefined_access
unfolding lex_implication_clause
clause-undefined k [] ys s h = refl
clause-undefined k (x ∷ xs) [] s h = refl
clause-undefined zero (x ∷ xs) (y ∷ ys) s h = absurd (omega arith)
clause-undefined (suc k) (x ∷ xs) (y ∷ ys) s h =
    rw (clause-undefined k xs ys (bool_iff_reif_cached x y s).1 (omega arith)) refl

less_at-undefined :
    (k : ℕ) (xs ys : List BoolVarRef) (s : Solver)
    → length xs ≤ k
    → less_at_clauses k xs ys s ≡ err undefined_access
unfolding less_at_clauses
less_at-undefined k [] ys s h = refl
less_at-undefined k (x ∷ xs) [] s h = refl
less_at-undefined zero (x ∷ xs) (y ∷ ys) s h = absurd (omega arith)
less_at-undefined (suc k) (x ∷ xs) (y ∷ ys) s h =
    let u = new_bool_var s in
    less_at-undefined k xs ys (set_bool_var u.0 true (bool_iff_reif x y u.0 u.1)) (omega arith)

-- On arrays of one length `boolArraysLexImplication` and `boolArraysLexLtImplication` with a length
-- of 0, or above that of the arrays, access the arrays out of bounds, on every solver.
pub lex-undefined_access :
    (xs ys : List BoolVarRef) (k : ℕ) (s : Solver)
    → length xs ≡ length ys
    → (k ≡ 0) ⊎ (length xs < k)
    → (bool_arrays_lex_implication xs ys k s ≡ err undefined_access)
      × (bool_arrays_lex_lt_implication xs ys k s ≡ err undefined_access)
unfolding bool_arrays_lex_implication bool_arrays_lex_lt_implication
lex-undefined_access xs ys zero s same h =
    let e : (length xs == length ys) ≡ true = ground (arith, same) in (rw e refl, rw e refl)
lex-undefined_access xs ys (suc k) s same (inl h) = absurd (omega arith)
lex-undefined_access xs ys (suc k) s same (inr h) =
    let e : (length xs == length ys) ≡ true = ground (arith, same) in
    (
      rw e (rw (clause-undefined k xs ys s (omega arith)) refl),
      rw e (less_at-undefined k xs ys s (omega arith)),
    )
