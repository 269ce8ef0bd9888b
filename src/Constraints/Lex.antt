-- ===== src/Constraints/Lex.antt =====
-- The lexicographic constraints of core/ConstraintSolver.cc.
pub mod Equalities
pub mod Weak
pub mod Marks
pub mod Strict
pub mod Implication
pub mod Errors
use phd_thesis_src.Prelude.{
  ℕ, zero, suc, Bool, true, false, List, [], ◌∷◌, ◌++◌, map, Result, ok, err, runtime_error,
  undefined_access, ◌>>=◌, length, ◌==◌, if◌then◌else◌,
}
use phd_thesis_src.Constraints.{
  BoolVarRef, Solver, neg, new_bool_var, new_bool_vars, bool_array_or, set_bool_var,
}
use phd_thesis_src.Constraints.Gates.{bool_iff_reif}
use phd_thesis_src.Constraints.Arrays.{bool_array_and_reif}
use phd_thesis_src.Constraints.IffCache.{bool_iff_reif_cached}

-- The loop "cache": a fresh variable for the equality at each position but the last. It is called
-- on arrays of one length.
pub reify_prefix : List BoolVarRef → List BoolVarRef → Solver → List BoolVarRef × Solver
reify_prefix (x ∷ x' ∷ xs) (y ∷ ys) s =
    let (t, s₁) = new_bool_var s in
    let (ts, s₂) = reify_prefix (x' ∷ xs) ys (bool_iff_reif x y t s₁) in (t ∷ ts, s₂)
reify_prefix _ _ s = ([], s)

-- The loop "horn clauses" from some position on; `done` is reifs[0 .. i) and `rs` is reifs[i ..].
pub horn_clauses :
    List BoolVarRef → List BoolVarRef → List BoolVarRef → List BoolVarRef → Solver → Solver
horn_clauses done rs [] ys s = s
horn_clauses done rs (x ∷ xs) [] s = s
horn_clauses done [] (x ∷ xs) (y ∷ ys) s = bool_array_or (map neg done ++ (neg x ∷ y ∷ [])) s
horn_clauses done (r ∷ rs) (x ∷ xs) (y ∷ ys) s =
    horn_clauses (done ++ (r ∷ [])) rs xs ys (bool_array_or (map neg done ++ (neg x ∷ y ∷ [])) s)

pub bool_arrays_lex : List BoolVarRef → List BoolVarRef → Solver → Result Solver
unfolding reify_prefix horn_clauses
bool_arrays_lex arr₁ arr₂ s =
    if length arr₁ == length arr₂
    then (let (reifs, s₁) = reify_prefix arr₁ arr₂ s in ok (horn_clauses [] reifs arr₁ arr₂ s₁))
    else err runtime_error

-- The last loop of `boolArraysLexLt` from some position on; `done` is eqReifs[0 .. i).
pub strict_gates :
    List BoolVarRef
    → List BoolVarRef
    → List BoolVarRef
    → List BoolVarRef
    → List BoolVarRef
    → Solver
    → Result Solver
strict_gates done rs [] xs ys s = ok s
strict_gates done rs (t ∷ ts) [] ys s = err undefined_access
strict_gates done rs (t ∷ ts) (x ∷ xs) [] s = err undefined_access
strict_gates done [] (t ∷ ts) (x ∷ xs) (y ∷ ys) s =
    bool_array_and_reif (done ++ (neg x ∷ y ∷ [])) t s >>= strict_gates done [] ts xs ys
strict_gates done (r ∷ rs) (t ∷ ts) (x ∷ xs) (y ∷ ys) s =
    bool_array_and_reif (done ++ (neg x ∷ y ∷ [])) t s
    >>= strict_gates (done ++ (r ∷ [])) rs ts xs ys

pub bool_arrays_lex_lt : List BoolVarRef → List BoolVarRef → Solver → Result Solver
unfolding reify_prefix strict_gates
bool_arrays_lex_lt arr₁ arr₂ s =
    if length arr₁ == length arr₂
    then (let (reifs, s₁) = reify_prefix arr₁ arr₂ s in
        let (ts, s₂) = new_bool_vars (length arr₁) s₁ in
        strict_gates [] reifs ts arr₁ arr₂ s₂ >>= (λ s₃. ok (bool_array_or ts s₃)))
    else err runtime_error

-- The clause of `boolArraysLexImplication`: its loop and the reads behind it, on arrays that begin
-- at position `i`, with `length - 1 - i` for the first argument.
pub lex_implication_clause :
    ℕ → List BoolVarRef → List BoolVarRef → Solver → Result (List BoolVarRef × Solver)
lex_implication_clause k [] ys s = err undefined_access
lex_implication_clause k (x ∷ xs) [] s = err undefined_access
lex_implication_clause zero (x ∷ xs) (y ∷ ys) s = ok (neg x ∷ y ∷ [], s)
lex_implication_clause (suc k) (x ∷ xs) (y ∷ ys) s =
    let (t, s₁) = bool_iff_reif_cached x y s in
    lex_implication_clause k xs ys s₁ >>= (λ r. ok (neg t ∷ r.0, r.1))

-- `length` is at least 1 in the calls; for 0 the code reads the arrays at -1.
pub bool_arrays_lex_implication : List BoolVarRef → List BoolVarRef → ℕ → Solver → Result Solver
unfolding lex_implication_clause
bool_arrays_lex_implication arr₁ arr₂ zero s =
    if length arr₁ == length arr₂ then err undefined_access else err runtime_error
bool_arrays_lex_implication arr₁ arr₂ (suc k) s =
    if length arr₁ == length arr₂
    then lex_implication_clause k arr₁ arr₂ s >>= (λ r. ok (bool_array_or r.0 r.1))
    else err runtime_error

-- The loop of `boolArraysLexLtImplication` and the two calls behind it.
pub less_at_clauses : ℕ → List BoolVarRef → List BoolVarRef → Solver → Result Solver
less_at_clauses k [] ys s = err undefined_access
less_at_clauses k (x ∷ xs) [] s = err undefined_access
less_at_clauses zero (x ∷ xs) (y ∷ ys) s = ok (set_bool_var y true (set_bool_var x false s))
less_at_clauses (suc k) (x ∷ xs) (y ∷ ys) s =
    let (t, s₁) = new_bool_var s in
    less_at_clauses k xs ys (set_bool_var t true (bool_iff_reif x y t s₁))

pub bool_arrays_lex_lt_implication : List BoolVarRef → List BoolVarRef → ℕ → Solver → Result Solver
unfolding less_at_clauses
bool_arrays_lex_lt_implication arr₁ arr₂ zero s =
    if length arr₁ == length arr₂ then err undefined_access else err runtime_error
bool_arrays_lex_lt_implication arr₁ arr₂ (suc k) s =
    if length arr₁ == length arr₂ then less_at_clauses k arr₁ arr₂ s else err runtime_error
