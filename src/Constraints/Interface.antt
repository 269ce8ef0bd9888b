-- ===== src/Constraints/Interface.antt =====
-- The public methods of the class ConstraintSolver of core/ConstraintSolver.h, over any state.
-- `setLexConstraintStrategy` is declared and has no body.
use phd_thesis_src.Prelude.{ℕ, List, ℤ, Bool, Result}
use phd_thesis_src.Sat.{Lbool}
use phd_thesis_src.Sat.Semantics.{Search}
use phd_thesis_src.Matrix.{Matrix}
use phd_thesis_src.Constraints.{
  BoolVarRef, IntVarRef, Solver, new_solver, new_bool_var, true_const, false_const, neg,
  set_bool_var, bool_array_or, bool_or₂, bool_or₃, at_least_one, new_model,
}
use phd_thesis_src.Constraints.Cardinality.{at_most_one, exactly_one}
use phd_thesis_src.Constraints.Gates.{
  bool_iff_reif, bool_and_reif₂, bool_and_reif₃, bool_or_reif₂, bool_or_reif₃,
}
use phd_thesis_src.Constraints.IffCache.{bool_iff_reif_cached}
use phd_thesis_src.Constraints.Arrays.{bool_array_and_reif, bool_array_or_reif}
use phd_thesis_src.Constraints.Lex.{
  bool_arrays_lex, bool_arrays_lex_lt, bool_arrays_lex_implication, bool_arrays_lex_lt_implication,
}
use phd_thesis_src.Constraints.Ints.{new_int_var, new_permutation, int_eq_reif}
use phd_thesis_src.Constraints.Graphs.{new_adj_matrix, not_lex_leader, isomorphic}
use phd_thesis_src.Constraints.Answers.{
  solve, get_bool_assignment, get_int_assignment, decode_int_array, count_solutions,
}

pub record ConstraintSolver (S : Type 0) : Type 0 where
  pub new_solver : S
  pub new_bool_var : S → BoolVarRef × S
  pub true_const : BoolVarRef
  pub false_const : BoolVarRef
  pub neg : BoolVarRef → BoolVarRef
  pub set_bool_var : BoolVarRef → Bool → S → S
  pub bool_array_or : List BoolVarRef → S → S
  pub bool_or₂ : BoolVarRef → BoolVarRef → S → S
  pub bool_or₃ : BoolVarRef → BoolVarRef → BoolVarRef → S → S
  pub at_least_one : List BoolVarRef → S → S
  pub at_most_one : List BoolVarRef → S → S
  pub exactly_one : List BoolVarRef → S → S
  pub bool_iff_reif : BoolVarRef → BoolVarRef → BoolVarRef → S → S
  pub bool_iff_reif_cached : BoolVarRef → BoolVarRef → S → BoolVarRef × S
  pub bool_and_reif₂ : BoolVarRef → BoolVarRef → BoolVarRef → S → S
  pub bool_and_reif₃ : BoolVarRef → BoolVarRef → BoolVarRef → BoolVarRef → S → S
  pub bool_array_and_reif : List BoolVarRef → BoolVarRef → S → Result S
  pub bool_or_reif₂ : BoolVarRef → BoolVarRef → BoolVarRef → S → S
  pub bool_or_reif₃ : BoolVarRef → BoolVarRef → BoolVarRef → BoolVarRef → S → S
  pub bool_array_or_reif : List BoolVarRef → BoolVarRef → S → Result S
  pub bool_arrays_lex : List BoolVarRef → List BoolVarRef → S → Result S
  pub bool_arrays_lex_lt : List BoolVarRef → List BoolVarRef → S → Result S
  pub bool_arrays_lex_implication : List BoolVarRef → List BoolVarRef → ℕ → S → Result S
  pub bool_arrays_lex_lt_implication : List BoolVarRef → List BoolVarRef → ℕ → S → Result S
  pub new_int_var : ℤ → ℤ → S → IntVarRef × S
  pub new_permutation : ℕ → S → Result (List IntVarRef × S)
  pub int_eq_reif : IntVarRef → ℤ → S → Result BoolVarRef
  pub new_adj_matrix : ℕ → S → Result (Matrix BoolVarRef × S)
  pub not_lex_leader : Matrix Lbool → S → Result (List IntVarRef × S)
  pub isomorphic : Matrix BoolVarRef → Matrix BoolVarRef → List IntVarRef → S → Result S
  pub solve : S → Lbool × S
  pub get_bool_assignment : BoolVarRef → S → Result Lbool
  pub get_int_assignment : IntVarRef → S → Result ℤ
  pub decode_int_array : List IntVarRef → S → Result (List ℤ)
  pub count_solutions : ℕ → List BoolVarRef → S → Result (ℕ × S)
  pub new_model : S → S

-- The implementation, with the search of the SAT solver.
abbrev pub constraint_solver : Search → ConstraintSolver Solver
constraint_solver search = record {
  new_solver = new_solver;
  new_bool_var = new_bool_var;
  true_const = true_const;
  false_const = false_const;
  neg = neg;
  set_bool_var = set_bool_var;
  bool_array_or = bool_array_or;
  bool_or₂ = bool_or₂;
  bool_or₃ = bool_or₃;
  at_least_one = at_least_one;
  at_most_one = at_most_one;
  exactly_one = exactly_one;
  bool_iff_reif = bool_iff_reif;
  bool_iff_reif_cached = bool_iff_reif_cached;
  bool_and_reif₂ = bool_and_reif₂;
  bool_and_reif₃ = bool_and_reif₃;
  bool_array_and_reif = bool_array_and_reif;
  bool_or_reif₂ = bool_or_reif₂;
  bool_or_reif₃ = bool_or_reif₃;
  bool_array_or_reif = bool_array_or_reif;
  bool_arrays_lex = bool_arrays_lex;
  bool_arrays_lex_lt = bool_arrays_lex_lt;
  bool_arrays_lex_implication = bool_arrays_lex_implication;
  bool_arrays_lex_lt_implication = bool_arrays_lex_lt_implication;
  new_int_var = new_int_var;
  new_permutation = new_permutation;
  int_eq_reif = int_eq_reif;
  new_adj_matrix = new_adj_matrix;
  not_lex_leader = not_lex_leader;
  isomorphic = isomorphic;
  solve = solve search;
  get_bool_assignment = get_bool_assignment;
  get_int_assignment = get_int_assignment;
  decode_int_array = decode_int_array;
  count_solutions = λ fuel bs s. count_solutions search fuel bs 0 s;
  new_model = new_model;
}
