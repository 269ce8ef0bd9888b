-- ===== src/Constraints/Answers.antt =====
-- The search methods of core/ConstraintSolver.cc: `solve` and what is read from its model.
pub mod Decode
pub mod Solve
pub mod Blocked
pub mod Count
use phd_thesis_src.Prelude.{
  ℕ, zero, suc, true, false, List, [], ◌∷◌, ℤ, pos, negsuc, ◌+ℤ◌, get_elem?, Result, ok, err,
  undefined_access, out_of_fuel, ◌>>=◌, orelse, if◌then◌else◌, ◌/◌, ◌%◌, ◌==◌,
}
use phd_thesis_src.Sat.{Lit, Lbool, l_true, l_false, l_undef, lbool_xor, sat, unsat, unknown}
use phd_thesis_src.Sat.Semantics.{Search, is_true}
use phd_thesis_src.Constraints.{BoolVarRef, IntVarRef, Solver, neg, to_lit, bool_array_or}

-- `lbool2int`
lbool2int : Lbool → ℤ
lbool2int l_true = pos 1
lbool2int l_false = pos 0
lbool2int l_undef = negsuc 0

-- `modelValue` of the SAT solver: model[var(p)] ^ sign(p).
pub model_value : List Lbool → Lit → Result Lbool
model_value m p = elim p.x [
  | pos n ↦ orelse (get_elem? m (n / 2)) undefined_access >>= (λ l. ok (lbool_xor l (n % 2 == 1)))
  | negsuc n ↦ err undefined_access
]

pub get_bool_assignment : BoolVarRef → Solver → Result Lbool
unfolding model_value to_lit
get_bool_assignment b s = model_value s.sat.model (to_lit b)

-- The loop of `getIntAssignment`, with `lb + i` for `val`; `first` is the value of `v.lb`.
pub first_true : ℤ → ℤ → List BoolVarRef → Solver → Result ℤ
unfolding get_bool_assignment
first_true lb val [] s = ok lb
first_true lb val (b ∷ bs) s =
    get_bool_assignment b s
    >>= (λ l. elim (is_true l) [ true ↦ ok val | false ↦ first_true lb (val +ℤ pos 1) bs s ])

pub get_int_assignment : IntVarRef → Solver → Result ℤ
unfolding first_true
get_int_assignment v s =
    orelse (get_elem? s.ints v) undefined_access >>= (λ i. first_true i.lb i.lb i.bools s)

pub decode_int_array : List IntVarRef → Solver → Result (List ℤ)
unfolding get_int_assignment
decode_int_array [] s = ok []
decode_int_array (v ∷ vs) s =
    get_int_assignment v s >>= (λ x. decode_int_array vs s >>= (λ xs. ok (x ∷ xs)))

-- The loop that builds `blockingClause`.
pub blocking_clause : List BoolVarRef → Solver → Result (List BoolVarRef)
unfolding get_bool_assignment
blocking_clause [] s = ok []
blocking_clause (b ∷ bs) s =
    get_bool_assignment b s
    >>= (λ l. blocking_clause bs s >>= (λ c. ok ((if is_true l then neg b else b) ∷ c)))

abbrev pub with_model : List Lbool → Solver → Solver
with_model m s = let before = s.sat in record s { sat = record before { model = m } }

module _ (search : Search) where
  -- `solveLimited` with no assumptions: the answer, and the model where there is one.
  pub solve : Solver → Lbool × Solver
  solve s = elim (search s.sat) [
    | sat m ↦ (l_true, with_model m s)
    | unsat ↦ (l_false, with_model [] s)
    | unknown ↦ (l_undef, with_model [] s)
  ]

  -- The loop of `countSolutions` on fuel.
  pub count_solutions : ℕ → List BoolVarRef → ℕ → Solver → Result (ℕ × Solver)
  unfolding solve blocking_clause
  count_solutions zero projected count s = err out_of_fuel
  count_solutions (suc fuel) projected count s = elim (is_true (solve s).0) [
    | false ↦ ok (count, (solve s).1)
    | true ↦
        blocking_clause projected (solve s).1
        >>= (λ c. count_solutions fuel projected (suc count) (bool_array_or c (solve s).1))
  ]
