-- ===== src/Canonizing.antt =====
-- core/CanonizingLexImplicationsAlg.cc and core/defs.h: the search for a canonizing set of
-- lexicographic implications. The calls of the SAT solver's search and of the reducer are
-- parameters.
pub mod SetUp
pub mod Impose
pub mod Start
pub mod Candidates
pub mod Decoded
pub mod Done
pub mod Edges
pub mod Find
pub mod Rounds
pub mod Covers
pub mod Least
pub mod Subgraph
pub mod PermutationSet
pub mod Main
pub mod Objects
pub mod Tests
use phd_thesis_src.Prelude.{
  ℕ, zero, suc, ◌+◌, ◌-◌, ◌*◌, ◌/◌, ◌%◌, ◌==◌, Bool, true, false, ◌||◌, List, [], ◌∷◌, ◌++◌, ℤ, pos,
  negsuc, Result, ok, err, undefined_access, out_of_fuel, ◌>>=◌, if◌then◌else◌,
}
use phd_thesis_src.Sat.Semantics.{Search, is_true}
use phd_thesis_src.Matrix.{Matrix, permute, upper_triangle, lower_triangle}
use phd_thesis_src.Constraints.{BoolVarRef, IntVarRef, Solver, new_model}
use phd_thesis_src.Constraints.Lex.{bool_arrays_lex_implication, bool_arrays_lex_lt_implication}
use phd_thesis_src.Constraints.Ints.{new_permutation}
use phd_thesis_src.Constraints.Graphs.{new_adj_matrix, isomorphic}
use phd_thesis_src.Constraints.Answers.{solve, decode_int_array}

pub data CanonicalIndexing : Type 0 where
  upper_triangle_rows upper_triangle_cols : CanonicalIndexing

-- A permutation is used as a vector of indices only.
pub record LexImplication : Type 0 where
  pub perm : List ℕ
  pub length : ℕ

pub indexing {ℓ} : {A : Type ℓ} → CanonicalIndexing → Matrix A → Result (List A)
indexing upper_triangle_rows g = upper_triangle g
indexing upper_triangle_cols g = lower_triangle g

-- The numbers that `decodeIntArray` gives, as indices.
pub indices : List ℤ → Result (List ℕ)
indices [] = ok []
indices (pos k ∷ xs) = indices xs >>= (λ ks. ok (k ∷ ks))
indices (negsuc k ∷ xs) = err undefined_access

-- The graphs, the permutation and the solver of a round.
pub record Round : Type 0 where
  pub g1 : Matrix BoolVarRef
  pub g2 : Matrix BoolVarRef
  pub perm : List IntVarRef
  pub solver : Solver

-- From `newModel` to `isomorphic`.
pub set_up : ℕ → Solver → Result Round
set_up n s = new_adj_matrix n (new_model s) >>= (λ a. new_adj_matrix n a.1 >>= (λ b.
    new_permutation n b.1 >>= (λ c.
      isomorphic a.0 b.0 c.0 c.1
      >>= (λ s'. ok (record { g1 = a.0; g2 = b.0; perm = c.0; solver = s' })))))

-- ((n * (n - 1)) / 2) - 1, where no round is run for a negative number.
abbrev pub max_len : ℕ → ℕ
max_len n = n * (n - 1) / 2 - 1

module _ (index : CanonicalIndexing) where
  -- indexing( g1.permute( perm ) ) and the constraint that follows it.
  pub impose : Matrix BoolVarRef → List BoolVarRef → List ℕ → ℕ → Solver → Result Solver
  unfolding indexing
  impose g1 string1 perm length s = permute g1 perm >>= (λ m.
      indexing index m >>= (λ permuted. bool_arrays_lex_implication string1 permuted length s))

  -- The loops "encode lex implications".
  pub encode_set :
      Matrix BoolVarRef → List BoolVarRef → List LexImplication → Solver → Result Solver
  unfolding impose
  encode_set g1 string1 [] s = ok s
  encode_set g1 string1 (x ∷ xs) s =
      impose g1 string1 x.perm x.length s >>= encode_set g1 string1 xs

  -- The constraints of a round before its search; `before` are the sets that are encoded, in order.
  pub start_round : ℕ → ℕ → List LexImplication → Solver → Result (Round × List BoolVarRef × Solver)
  unfolding set_up encode_set
  start_round n i before s = set_up n s >>= (λ u. indexing index u.g1 >>= (λ string1.
      indexing index u.g2 >>= (λ string2.
        bool_arrays_lex_lt_implication string2 string1 i u.solver
        >>= (λ s₁. encode_set u.g1 string1 before s₁ >>= (λ s₂. ok (u, string1, s₂))))))

  module _ (search : Search) where
    -- The loop "find implications of length i", on fuel.
    pub find_implications :
        ℕ
        → ℕ
        → Round
        → List BoolVarRef
        → List LexImplication
        → Solver
        → Result (List LexImplication × Solver)
    unfolding impose indices
    find_implications zero i u string1 found s = err out_of_fuel
    find_implications (suc fuel) i u string1 found s =
        let answer = solve search s in
        elim (is_true answer.0) [
          | false ↦ ok (found, answer.1)
          | true ↦ decode_int_array u.perm answer.1 >>= indices >>= (λ ce_perm.
              impose u.g1 string1 ce_perm i answer.1
              >>= find_implications fuel i u string1
                  (found ++ (record { perm = ce_perm; length = i } ∷ [])))
        ]

    -- One round of `extend`; `compute` is the case where no set is given.
    pub run_round :
        ℕ
        → ℕ
        → ℕ
        → List LexImplication
        → List LexImplication
        → Solver
        → Result (List LexImplication × Solver)
    unfolding start_round find_implications
    run_round fuel n i given delta s =
        start_round n i (given ++ delta) s >>= (λ r. find_implications fuel i r.0 r.1 delta r.2)

    -- The loop over the lengths, `k` rounds from length `i` on, with the call of the reducer.
    pub run_rounds :
        ℕ
        → (List LexImplication → Result (List LexImplication))
        → ℕ
        → ℕ
        → ℕ
        → List LexImplication
        → List LexImplication
        → Solver
        → Result (List LexImplication × Solver)
    unfolding run_round
    run_rounds fuel reduce n i zero given delta s = ok (delta, s)
    run_rounds fuel reduce n i (suc k) given delta s = run_round fuel n i given delta s >>= (λ r.
        (if i % 5 == 0 || i == max_len n then reduce r.0 else ok r.0)
        >>= (λ delta'. run_rounds fuel reduce n (suc i) k given delta' r.1))

    pub extend :
        ℕ
        → (List LexImplication → List LexImplication → Result (List LexImplication))
        → ℕ
        → List LexImplication
        → Solver
        → Result (List LexImplication × Solver)
    unfolding run_rounds
    extend fuel reduce_delta n given s =
        run_rounds fuel (reduce_delta given) n 1 (max_len n) given [] s

    pub compute :
        ℕ
        → (List LexImplication → Result (List LexImplication))
        → ℕ
        → Solver
        → Result (List LexImplication × Solver)
    unfolding run_rounds
    compute fuel reduce n s = run_rounds fuel reduce n 1 (max_len n) [] [] s
