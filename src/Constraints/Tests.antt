-- ===== src/Constraints/Tests.antt =====
-- Runs of the constraints on small solvers.
use phd_thesis_src.Prelude.{
  inr, err, undefined_access, ◌≡◌, refl, List, [], ◌∷◌, pos, negsuc, arith, All, Returns,
}
use phd_thesis_src.Constraints.{
  BoolVarRef, Solver, new_bool_var, new_bool_vars, new_solver, new_model,
}
use phd_thesis_src.Constraints.Semantics.{IsRef, vars, IsValid}
use phd_thesis_src.Constraints.Encodes.{Encodes}
use phd_thesis_src.Constraints.Fresh.{new_bool_vars-Encodes}
use phd_thesis_src.Constraints.Initial.{new_solver-IsValid, new_model-new_solver}
use phd_thesis_src.Constraints.Gates.{
  bool_iff_reif, bool_and_reif₃, bool_or_reif₂, IffGate, And₃Gate, OrGate, bool_iff_reif-Encodes,
  bool_and_reif₃-Encodes, bool_or_reif₂-Encodes,
}
use phd_thesis_src.Constraints.Cardinality.{
  at_most_one, exactly_one, AtMostOne, ExactlyOne, at_most_one-Encodes, exactly_one-Encodes,
}
use phd_thesis_src.Constraints.Arrays.{
  bool_array_and_reif, bool_array_or_reif, AndArray, OrArray, OrArrayOnce,
  bool_array_and_reif-Encodes, bool_array_or_reif-Encodes,
}
use phd_thesis_src.Constraints.IffCache.{
  bool_iff_reif_cached, IffResult, bool_iff_reif_cached-Encodes,
}
use phd_thesis_src.Constraints.Lex.{
  bool_arrays_lex, bool_arrays_lex_lt, bool_arrays_lex_implication, bool_arrays_lex_lt_implication,
}
use phd_thesis_src.Constraints.Lex.Weak.{LexLe, bool_arrays_lex-Encodes}
use phd_thesis_src.Constraints.Lex.Strict.{LexLt, bool_arrays_lex_lt-Encodes}
use phd_thesis_src.Constraints.Lex.Implication.{
  Implied, LessAt, bool_arrays_lex_implication-Encodes, bool_arrays_lex_lt_implication-Encodes,
}
use phd_thesis_src.Constraints.Lex.Errors.{lex-undefined_access}
use phd_thesis_src.Constraints.Answers.{count_solutions}
use phd_thesis_src.Constraints.Answers.Count.{Counted, count_solutions-Counted}
use phd_thesis_src.Canonizing.Tests.Brute.{brute_search, brute_search-IsCorrect}
use phd_thesis_src.Constraints.Ints.{new_int_var, new_permutation}
use phd_thesis_src.Constraints.Ints.Single.{IntResult, new_int_var-IntResult}
use phd_thesis_src.Constraints.Ints.Permutations.{PermResult, new_permutation-PermResult}
use phd_thesis_src.Constraints.Graphs.{new_adj_matrix}
use phd_thesis_src.Constraints.Graphs.Filled.{AdjResult, new_adj_matrix-AdjResult}

-- The constant and four variables, 2 to 5.
abbrev sample : Solver
sample = (new_bool_vars 4 new_solver).1

sample-IsValid : IsValid sample
sample-IsValid = (new_bool_vars-Encodes 4 new_solver new_solver-IsValid).2.valid

sample-vars : vars sample ≡ 5
unfolding new_bool_vars new_bool_var new_solver
sample-vars = refl

abbrev xs : List BoolVarRef
xs = pos 2 ∷ negsuc 2 ∷ []

abbrev ys : List BoolVarRef
ys = pos 4 ∷ pos 5 ∷ []

xs-refs : All (IsRef (vars sample)) xs
xs-refs = omega (arith, sample-vars)

ys-refs : All (IsRef (vars sample)) ys
ys-refs = omega (arith, sample-vars)

new_model-new_solver_example : new_model sample ≡ new_solver
new_model-new_solver_example = new_model-new_solver sample

bool_iff_reif-Encodes_example :
    Encodes sample
      (bool_iff_reif (pos 2) (negsuc 2) (pos 4) sample)
      (IffGate (pos 2) (negsuc 2) (pos 4))
      (IffGate (pos 2) (negsuc 2) (pos 4))
bool_iff_reif-Encodes_example =
    bool_iff_reif-Encodes sample sample-IsValid (pos 2) (negsuc 2) (pos 4) xs-refs.0 xs-refs.1.0
      ys-refs.0

bool_or_reif₂-Encodes_example :
    Encodes sample
      (bool_or_reif₂ (pos 2) (negsuc 2) (pos 4) sample)
      (OrGate (pos 2) (negsuc 2) (pos 4))
      (OrGate (pos 2) (negsuc 2) (pos 4))
bool_or_reif₂-Encodes_example =
    bool_or_reif₂-Encodes sample sample-IsValid (pos 2) (negsuc 2) (pos 4) xs-refs.0 xs-refs.1.0
      ys-refs.0

bool_and_reif₃-Encodes_example :
    Encodes sample
      (bool_and_reif₃ (pos 2) (negsuc 2) (pos 5) (pos 4) sample)
      (And₃Gate (pos 2) (negsuc 2) (pos 5) (pos 4))
      (And₃Gate (pos 2) (negsuc 2) (pos 5) (pos 4))
bool_and_reif₃-Encodes_example =
    bool_and_reif₃-Encodes sample sample-IsValid (pos 2) (negsuc 2) (pos 4) xs-refs.0 xs-refs.1.0
      ys-refs.0 (pos 5) ys-refs.1.0

at_most_one-Encodes_example : Encodes sample (at_most_one xs sample) (AtMostOne xs) (AtMostOne xs)
at_most_one-Encodes_example = at_most_one-Encodes xs sample sample-IsValid xs-refs

exactly_one-Encodes_example : Encodes sample (exactly_one xs sample) (ExactlyOne xs) (ExactlyOne xs)
exactly_one-Encodes_example = exactly_one-Encodes xs sample sample-IsValid xs-refs

bool_array_and_reif-Encodes_example :
    Returns
      (bool_array_and_reif xs (pos 4) sample)
      λ s'. Encodes sample s' (AndArray xs (pos 4)) (AndArray xs (pos 4))
bool_array_and_reif-Encodes_example =
    bool_array_and_reif-Encodes (pos 2) (negsuc 2 ∷ []) (pos 4) sample sample-IsValid
      (ys-refs.0, xs-refs)

bool_array_or_reif-Encodes_example :
    Returns
      (bool_array_or_reif xs (pos 4) sample)
      λ s'. Encodes sample s' (OrArray xs (pos 4)) (OrArrayOnce xs (pos 4))
bool_array_or_reif-Encodes_example =
    bool_array_or_reif-Encodes (pos 2) [] (pos 4) sample sample-IsValid (negsuc 2)
      (ys-refs.0, xs-refs)

bool_iff_reif_cached-Encodes_example :
    IffResult (pos 2) (negsuc 2) sample (bool_iff_reif_cached (pos 2) (negsuc 2) sample)
bool_iff_reif_cached-Encodes_example =
    bool_iff_reif_cached-Encodes (pos 2) (negsuc 2) sample sample-IsValid xs-refs.0 xs-refs.1.0

bool_arrays_lex-Encodes_example :
    Returns (bool_arrays_lex xs ys sample) λ s'. Encodes sample s' (LexLe xs ys) (LexLe xs ys)
bool_arrays_lex-Encodes_example =
    bool_arrays_lex-Encodes xs ys sample sample-IsValid refl xs-refs ys-refs

bool_arrays_lex_lt-Encodes_example :
    Returns (bool_arrays_lex_lt xs ys sample) λ s'. Encodes sample s' (LexLt xs ys) (LexLt xs ys)
bool_arrays_lex_lt-Encodes_example =
    bool_arrays_lex_lt-Encodes xs ys refl sample sample-IsValid xs-refs ys-refs

bool_arrays_lex_implication-Encodes_example :
    Returns
      (bool_arrays_lex_implication xs ys 2 sample)
      λ s'. Encodes sample s' (Implied 1 xs ys) (Implied 1 xs ys)
bool_arrays_lex_implication-Encodes_example =
    bool_arrays_lex_implication-Encodes 1 xs ys sample sample-IsValid (omega arith) refl xs-refs
      ys-refs

bool_arrays_lex_lt_implication-Encodes_example :
    Returns
      (bool_arrays_lex_lt_implication xs ys 2 sample)
      λ s'. Encodes sample s' (LessAt 1 xs ys) (LessAt 1 xs ys)
bool_arrays_lex_lt_implication-Encodes_example =
    bool_arrays_lex_lt_implication-Encodes 1 xs ys sample sample-IsValid (omega arith) refl xs-refs
      ys-refs

new_int_var-IntResult_example : IntResult 3 sample (new_int_var (pos 0) (pos 2) sample)
new_int_var-IntResult_example = new_int_var-IntResult 3 sample sample-IsValid (omega arith)

new_permutation-PermResult_example : Returns (new_permutation 3 sample) (PermResult 3 sample)
new_permutation-PermResult_example =
    new_permutation-PermResult 3 sample sample-IsValid (omega arith)

new_adj_matrix-AdjResult_example : Returns (new_adj_matrix 3 sample) (AdjResult 3 sample)
new_adj_matrix-AdjResult_example = new_adj_matrix-AdjResult 3 sample sample-IsValid

lex-undefined_access_example :
    (bool_arrays_lex_implication xs ys 7 sample ≡ err undefined_access)
    × (bool_arrays_lex_lt_implication xs ys 7 sample ≡ err undefined_access)
lex-undefined_access_example = lex-undefined_access xs ys 7 sample refl (inr (omega arith))

count_solutions-Counted_example :
    Returns (count_solutions brute_search 5 xs 0 sample) (Counted xs sample xs-refs)
count_solutions-Counted_example =
    count_solutions-Counted xs sample xs-refs brute_search brute_search-IsCorrect sample-IsValid 5
      (omega arith)
