-- ===== src/Canonizing/Tests.antt =====
-- Runs of the rounds of the search on small graphs.
pub mod Brute
use phd_thesis_src.Prelude.{
  zero, suc, ◌^◌, ◌<◌, some, none, ℕ, ◌≤◌, ◌⊎◌, List, Result, ok, All, length, ◌≡◌, refl, [], ◌∷◌,
  pos, negsuc, arith, err, undefined_access, Returns,
}
use phd_thesis_src.Constraints.{new_solver}
use phd_thesis_src.Constraints.Encodes.{Encodes}
use phd_thesis_src.Constraints.Initial.{new_solver-IsValid}
use phd_thesis_src.Constraints.Ints.{new_permutation}
use phd_thesis_src.Constraints.Ints.Permutations.{PermResult, new_permutation-PermResult}
use phd_thesis_src.Constraints.Graphs.{new_adj_matrix, isomorphic}
use phd_thesis_src.Constraints.Graphs.Filled.{AdjResult, new_adj_matrix-AdjResult}
use phd_thesis_src.Constraints.Graphs.Tables.{ref_at}
use phd_thesis_src.Constraints.Graphs.Isomorphism.{Permuted, isomorphic-Encodes}
use phd_thesis_src.Matrix.Upper.{length-lower_cells}
use phd_thesis_src.Constraints.Answers.Solve.{Found, Refuted, solve_lem}
use phd_thesis_src.Constraints.Interface.{constraint_solver}
use phd_thesis_src.Canonizing.{
  CanonicalIndexing, upper_triangle_cols, LexImplication, indices, set_up, start_round, run_round,
  max_len, extend, compute,
}
use phd_thesis_src.Canonizing.Impose.{cells_of}
use phd_thesis_src.Matrix.Permute.{IsInjective}
use phd_thesis_src.Canonizing.Start.{IsImplication, StartResult, start_round-StartResult}
use phd_thesis_src.Canonizing.Rounds.{RoundDone, run_round-RoundDone}
use phd_thesis_src.Canonizing.Covers.{Covers, IsReducer, extend-Covers, compute-Covers}
use phd_thesis_src.Canonizing.Least.{IsCanonizing, compute-IsCanonizing}
use phd_thesis_src.Canonizing.Done.{IsPermutation}
use phd_thesis_src.Canonizing.Subgraph.{extend_subgraph}
use phd_thesis_src.Canonizing.Subgraph.Complete.{
  IsReducerOn, IsCanonizingOn, extend_subgraph-IsCanonizingOn,
}
use phd_thesis_src.Canonizing.PermutationSet.{compute_permutations}
use phd_thesis_src.Canonizing.PermutationSet.Complete.{Suffices, compute_permutations-Suffices}
use phd_thesis_src.Canonizing.Main.{
  run_incremental, parse_input, initial_options, flag_c, flag_i, flag_g, flag_d, flag_h,
  incremental,
}
use phd_thesis_src.Canonizing.Main.Incremental.{IsCanonical, run_incremental-IsCanonical}
use phd_thesis_src.Canonizing.Tests.Brute.{brute_search, brute_search-IsCorrect}
use phd_thesis_src.Canonizing.SetUp.{SetUpResult, made, known, set_up-SetUpResult}

indices_negative : indices (pos 1 ∷ negsuc 0 ∷ []) ≡ err undefined_access
unfolding indices
indices_negative = refl

-- What a round has before `isomorphic` for three vertices.
abbrev adj1 : Returns (new_adj_matrix 3 new_solver) (AdjResult 3 new_solver)
adj1 = new_adj_matrix-AdjResult 3 new_solver new_solver-IsValid

abbrev adj2 : Returns (new_adj_matrix 3 adj1.0.1) (AdjResult 3 adj1.0.1)
adj2 = new_adj_matrix-AdjResult 3 adj1.0.1 adj1.2.offers.valid

abbrev perm3 : Returns (new_permutation 3 adj2.0.1) (PermResult 3 adj2.0.1)
perm3 = new_permutation-PermResult 3 adj2.0.1 adj2.2.offers.valid (omega arith)

isomorphic-Encodes_example : Returns (isomorphic adj1.0.0 adj2.0.0 perm3.0.0 perm3.0.1) λ s'.
    Encodes perm3.0.1 s'
      (Permuted 3 adj1.0.0 adj2.0.0 perm3.0.0 (ref_at perm3.2.bs) adj1.2.x adj2.2.x perm3.0.1)
      (Permuted 3 adj1.0.0 adj2.0.0 perm3.0.0 (ref_at perm3.2.bs) adj1.2.x adj2.2.x perm3.0.1)
isomorphic-Encodes_example =
    isomorphic-Encodes 3 adj1.0.0 adj2.0.0 perm3.0.0 (ref_at perm3.2.bs) adj1.2.x adj2.2.x perm3.0.1
      (made 3 adj1.0 adj2.0 perm3.0 adj1.2 adj2.2 perm3.2) adj1.2.filled.rows
      (known 3 adj1.0 adj2.0 perm3.0 adj1.2 adj2.2 perm3.2)

set_up-SetUpResult_example : Returns (set_up 3 new_solver) (SetUpResult 3)
set_up-SetUpResult_example = set_up-SetUpResult 3 new_solver (omega arith)

-- Strings by columns.
abbrev pub cols : CanonicalIndexing
cols = upper_triangle_cols

-- A reducer that removes nothing.
abbrev keep : List LexImplication → Result (List LexImplication)
keep xs = ok xs

keep-IsReducer : (n : ℕ) (given : List LexImplication) → IsReducer cols n given keep
keep-IsReducer n given xs h = (xs, refl, (h, λ e g m m'. m'))

-- The swap of the first two vertices, for the first position.
abbrev pub swap : LexImplication
swap = record { perm = 1 ∷ 0 ∷ 2 ∷ []; length = 1 }

three_pairs : 1 ≤ length (cells_of cols 3)
three_pairs = omega (arith, length-lower_cells 0 3)

swap-IsInjective : IsInjective 3 swap.perm
swap-IsInjective zero zero p q e = refl
swap-IsInjective zero (suc zero) p q e = absurd (omega arith)
swap-IsInjective zero (suc (suc zero)) p q e = absurd (omega arith)
swap-IsInjective zero (suc (suc (suc j))) p q e = absurd (omega arith)
swap-IsInjective (suc zero) zero p q e = absurd (omega arith)
swap-IsInjective (suc zero) (suc zero) p q e = refl
swap-IsInjective (suc zero) (suc (suc zero)) p q e = absurd (omega arith)
swap-IsInjective (suc zero) (suc (suc (suc j))) p q e = absurd (omega arith)
swap-IsInjective (suc (suc zero)) zero p q e = absurd (omega arith)
swap-IsInjective (suc (suc zero)) (suc zero) p q e = absurd (omega arith)
swap-IsInjective (suc (suc zero)) (suc (suc zero)) p q e = refl
swap-IsInjective (suc (suc zero)) (suc (suc (suc j))) p q e = absurd (omega arith)
swap-IsInjective (suc (suc (suc i))) j p q e = absurd (omega arith)

pub swap-IsImplication : All (IsImplication cols 3) (swap ∷ [])
swap-IsImplication = ((omega arith, omega arith, three_pairs, omega arith, swap-IsInjective), tt)

start_round-StartResult_example :
    Returns (start_round cols 3 1 (swap ∷ []) new_solver) (StartResult cols 3 0 (swap ∷ []))
start_round-StartResult_example =
    start_round-StartResult cols 3 0 (swap ∷ []) new_solver (omega arith) three_pairs
      swap-IsImplication

run_round-RoundDone_example :
    Returns
      (run_round cols brute_search 28 3 1 (swap ∷ []) [] new_solver)
      (RoundDone cols 3 0 (swap ∷ []) [])
run_round-RoundDone_example =
    run_round-RoundDone cols 3 brute_search brute_search-IsCorrect 28 0 (swap ∷ []) [] new_solver
      (omega arith) three_pairs swap-IsImplication (omega arith)

extend-Covers_example :
    Returns
      (extend cols brute_search 28 (λ given. keep) 3 (swap ∷ []) new_solver)
      λ r. All (IsImplication cols 3) r.0 × Covers cols 3 (max_len 3) (swap ∷ r.0)
extend-Covers_example =
    extend-Covers cols 3 brute_search brute_search-IsCorrect 28 (omega arith) (omega arith)
      (swap ∷ []) swap-IsImplication (λ given. keep) (keep-IsReducer 3 (swap ∷ [])) new_solver

compute-Covers_example :
    Returns
      (compute cols brute_search 28 keep 3 new_solver)
      λ r. All (IsImplication cols 3) r.0 × Covers cols 3 (max_len 3) r.0
compute-Covers_example =
    compute-Covers cols 3 brute_search brute_search-IsCorrect 28 (omega arith) (omega arith) keep
      (keep-IsReducer 3 []) new_solver

solve_lem_example : Found brute_search new_solver ⊎ Refuted brute_search new_solver
solve_lem_example = solve_lem brute_search new_solver brute_search-IsCorrect new_solver-IsValid

pub small_powers : (m : ℕ) → m ≤ 3 → m ^ m < 28
small_powers zero h = omega arith
small_powers (suc zero) h = omega arith
small_powers (suc (suc zero)) h = omega arith
small_powers (suc (suc (suc zero))) h = omega arith
small_powers (suc (suc (suc (suc m)))) h = absurd (omega arith)

run_incremental-IsCanonical_example :
    Returns (run_incremental brute_search 28 (λ n given. keep) 3 cols) (IsCanonical cols 3)
run_incremental-IsCanonical_example =
    run_incremental-IsCanonical cols brute_search brute_search-IsCorrect (λ n given. keep)
      (λ n given h. keep-IsReducer n given) 28 3 (omega arith) small_powers

compute-IsCanonizing_example :
    Returns (compute cols brute_search 28 keep 3 new_solver) λ r. IsCanonizing cols 3 r.0
compute-IsCanonizing_example =
    compute-IsCanonizing cols 3 brute_search brute_search-IsCorrect 28 (omega arith) (omega arith)
      keep (keep-IsReducer 3 []) new_solver

compute_permutations-Suffices_example :
    Returns
      (compute_permutations cols (constraint_solver brute_search) 28 3 new_solver)
      λ r. All (IsPermutation 3) r.0 × (r.1 ≡ new_solver) × Suffices cols 3 r.0
compute_permutations-Suffices_example =
    compute_permutations-Suffices cols 3 brute_search brute_search-IsCorrect 28 (omega arith)
      (omega arith)

-- The subgraph with the rows 01 and 10.
abbrev edge : List ℕ
edge = 48 ∷ 49 ∷ 49 ∷ 48 ∷ []

keep-IsReducerOn : IsReducerOn cols edge 3 (swap ∷ []) keep
keep-IsReducerOn xs h = (xs, refl, (h, λ e g c m m'. m'))

extend_subgraph-IsCanonizingOn_example :
    Returns
      (extend_subgraph cols edge brute_search 28 (λ given. keep) 3 (swap ∷ []) new_solver)
      λ r. IsCanonizingOn cols edge 3 (swap ∷ r.0)
extend_subgraph-IsCanonizingOn_example =
    extend_subgraph-IsCanonizingOn cols edge 3 2 refl (omega arith) brute_search
      brute_search-IsCorrect 28 (omega arith) (omega arith) (swap ∷ []) swap-IsImplication
      (λ given. keep) keep-IsReducerOn new_solver
