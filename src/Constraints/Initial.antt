-- ===== src/Constraints/Initial.antt =====
-- The constructor of `ConstraintSolver` and `newModel`.
use phd_thesis_src.Prelude.{◌≡◌, refl, true, arith}
use phd_thesis_src.Sat.{mk_lit}
use phd_thesis_src.Sat.Semantics.{clause_holds, all_hold}
use phd_thesis_src.Constraints.{Solver, to_lit, new_bool_var, new_solver, new_model}
use phd_thesis_src.Constraints.Semantics.{vars, holds, IsValid}

-- A new solver has the constant and no other variable.
new_solver-vars : vars new_solver ≡ 1
unfolding new_solver new_bool_var
new_solver-vars = refl

pub new_solver-IsValid : IsValid new_solver
unfolding new_solver new_bool_var holds all_hold clause_holds to_lit mk_lit
new_solver-IsValid = record {
  ids = refl;
  clauses = ((omega arith, tt), tt);
  int_ids = refl;
  int_refs = tt;
  cache_refs = tt;
  nonempty = omega arith;
  constant = λ v h. ground arith;
  cache_sound = λ v h. tt;
}

-- It has a model.
pub new_solver-holds : holds (λ i. true) new_solver ≡ true
unfolding new_solver new_bool_var holds all_hold clause_holds to_lit mk_lit
new_solver-holds = refl

-- `newModel` leaves no trace of the earlier model: it gives the solver that the constructor makes.
pub new_model-new_solver : (s : Solver) → new_model s ≡ new_solver
unfolding new_model new_solver
new_model-new_solver s = refl
