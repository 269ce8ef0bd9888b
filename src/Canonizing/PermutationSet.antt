-- ===== src/Canonizing/PermutationSet.antt =====
-- `compute` of core/CanonizingPermutationSetAlg.cc: a canonizing set of permutations.
pub mod Weak
pub mod Find
pub mod Complete
pub mod Object
use phd_thesis_src.Prelude.{
  ℕ, zero, suc, true, false, List, [], ◌∷◌, ◌++◌, Result, ok, err, out_of_fuel, ◌>>=◌,
}
use phd_thesis_src.Sat.Semantics.{is_true}
use phd_thesis_src.Matrix.{permute}
use phd_thesis_src.Constraints.{BoolVarRef, Solver}
use phd_thesis_src.Constraints.Interface.{ConstraintSolver}
use phd_thesis_src.Canonizing.{CanonicalIndexing, Round, indexing, indices}

-- The algorithm uses the constraint solver by the methods of its class, `c`.
module _ (c : ConstraintSolver Solver) where
  -- The calls before the strings are compared.
  pub start_permutations : ℕ → Solver → Result Round
  start_permutations n s = c.new_adj_matrix n s >>= (λ g1. c.new_adj_matrix n g1.1 >>= (λ g2.
      c.new_permutation n g2.1 >>= (λ p.
        c.isomorphic g1.0 g2.0 p.0 p.1
        >>= (λ s'. ok (record { g1 = g1.0; g2 = g2.0; perm = p.0; solver = s' })))))

module _ (index : CanonicalIndexing) (c : ConstraintSolver Solver) where
  -- The loop while there is a model, on fuel.
  pub find_permutations :
      ℕ → Round → List BoolVarRef → List (List ℕ) → Solver → Result (List (List ℕ) × Solver)
  unfolding indices indexing
  find_permutations zero u string1 found s = err out_of_fuel
  find_permutations (suc fuel) u string1 found s =
      let answer = c.solve s in
      elim (is_true answer.0) [
        | false ↦ ok (found, answer.1)
        | true ↦ c.decode_int_array u.perm answer.1 >>= indices >>= (λ ce_perm.
            permute u.g1 ce_perm >>= (λ m. indexing index m >>= (λ permuted.
              c.bool_arrays_lex string1 permuted answer.1
              >>= find_permutations fuel u string1 (found ++ (ce_perm ∷ [])))))
      ]

  pub compute_permutations : ℕ → ℕ → Solver → Result (List (List ℕ) × Solver)
  unfolding start_permutations find_permutations
  compute_permutations fuel n s = start_permutations c n s >>= (λ u.
      indexing index u.g1 >>= (λ string1. indexing index u.g2 >>= (λ string2.
        c.bool_arrays_lex_lt string2 string1 u.solver
        >>= (λ s₁. find_permutations fuel u string1 [] s₁ >>= (λ r. ok (r.0, c.new_model r.1))))))
