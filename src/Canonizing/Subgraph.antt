-- ===== src/Canonizing/Subgraph.antt =====
-- `extend` with a subgraph, of core/CanonizingLexImplicationsAlg.cc.
pub mod Embed
pub mod Rounds
pub mod Complete
use phd_thesis_src.Prelude.{
  ℕ, zero, suc, ◌*◌, ◌/◌, ◌%◌, ◌==◌, not, ◌||◌, List, [], ◌∷◌, ◌++◌, length, leb, Result, ok, ◌>>=◌,
  if◌then◌else◌,
}
use phd_thesis_src.Sat.Semantics.{Search}
use phd_thesis_src.Matrix.{Matrix, get}
use phd_thesis_src.Constraints.{BoolVarRef, Solver, set_bool_var}
use phd_thesis_src.Constraints.Lex.{bool_arrays_lex_lt_implication}
use phd_thesis_src.Canonizing.{
  CanonicalIndexing, LexImplication, Round, indexing, set_up, encode_set, find_implications,
  max_len,
}

-- The greatest k up to `bound` with k * k at most `m`.
abbrev sqrt_upto : ℕ → ℕ → ℕ
sqrt_upto zero m = 0
sqrt_upto (suc k) m = if leb (suc k * suc k) m then suc k else sqrt_upto k m

-- `(int)sqrt( m )`
abbrev pub int_sqrt : ℕ → ℕ
int_sqrt m = sqrt_upto m m

-- The loop "embed subgraph" from character `j` on; a character is its code, and 48 is '0'.
pub embed : ℕ → ℕ → List ℕ → Matrix BoolVarRef → Solver → Result Solver
embed k j [] g1 s = ok s
embed k j (c ∷ cs) g1 s =
    get g1 (j / k) (j % k) >>= (λ x. embed k (suc j) cs g1 (set_bool_var x (not (c == 48)) s))

module _ (index : CanonicalIndexing) (subgraph : List ℕ) where
  unfoldable pub start_subgraph_round :
      ℕ → ℕ → List LexImplication → Solver → Result (Round × List BoolVarRef × Solver)
  unfolding set_up encode_set embed indexing
  start_subgraph_round n i before s = set_up n s >>= (λ u.
      embed (int_sqrt (length subgraph)) 0 subgraph u.g1 u.solver >>= (λ s₁.
        indexing index u.g1 >>= (λ string1. indexing index u.g2 >>= (λ string2.
          bool_arrays_lex_lt_implication string2 string1 i s₁
          >>= (λ s₂. encode_set index u.g1 string1 before s₂ >>= (λ s₃. ok (u, string1, s₃)))))))

  -- The loop over the lengths, `k` rounds from length `i` on.
  unfoldable pub run_subgraph_rounds :
      Search
      → ℕ
      → (List LexImplication → Result (List LexImplication))
      → ℕ
      → ℕ
      → ℕ
      → List LexImplication
      → List LexImplication
      → Solver
      → Result (List LexImplication × Solver)
  unfolding start_subgraph_round find_implications
  run_subgraph_rounds search fuel reduce n i zero given delta s = ok (delta, s)
  run_subgraph_rounds search fuel reduce n i (suc k) given delta s =
      start_subgraph_round n i (given ++ delta) s >>= (λ q.
        find_implications index search fuel i q.0 q.1 delta q.2 >>= (λ r.
          (if i % 5 == 0 || i == max_len n then reduce r.0 else ok r.0)
          >>= (λ delta'. run_subgraph_rounds search fuel reduce n (suc i) k given delta' r.1)))

  unfoldable pub extend_subgraph :
      Search
      → ℕ
      → (List LexImplication → List LexImplication → Result (List LexImplication))
      → ℕ
      → List LexImplication
      → Solver
      → Result (List LexImplication × Solver)
  unfolding run_subgraph_rounds
  extend_subgraph search fuel reduce_delta n given s =
      run_subgraph_rounds search fuel (reduce_delta given) n 1 (max_len n) given [] s
