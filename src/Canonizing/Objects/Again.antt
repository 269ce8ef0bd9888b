-- ===== src/Canonizing/Objects/Again.antt =====
-- core/CanonizingLexImplicationsAlg.cc: a method begins each round with `newModel`, so what it
-- returns does not depend on the solver that earlier calls left.
use phd_thesis_src.Prelude.{ℕ, zero, suc, ◌≡◌, refl, ◌∙◌, ap, List, [], Result, ok, err, ◌>>=◌}
use phd_thesis_src.Text.{Bytes}
use phd_thesis_src.Sat.Semantics.{Search}
use phd_thesis_src.Constraints.{Solver}
use phd_thesis_src.Constraints.Initial.{new_model-new_solver}
use phd_thesis_src.Canonizing.{
  CanonicalIndexing, LexImplication, max_len, set_up, start_round, run_round, run_rounds, extend,
  compute,
}
use phd_thesis_src.Canonizing.Subgraph.{start_subgraph_round, run_subgraph_rounds, extend_subgraph}
use phd_thesis_src.Canonizing.Main.{direct, incremental}
use phd_thesis_src.Reducer.Texts.{Tool}
use phd_thesis_src.Reducer.{call_reduce, call_reduce_delta, call_reduce_delta_subgraph}
use phd_thesis_src.Writer.{write, write_subgraph}
use phd_thesis_src.Writer.Files.{Output, subgraph_file_name}
use phd_thesis_src.Canonizing.Objects.{
  CanonizingLexImplicationsAlg, Call, alg_compute, alg_extend, alg_extend_subgraph,
}

-- The first part of a result.
abbrev pub first : {A B : Type 0} → Result (A × B) → Result A
first (ok r) = ok r.0
first (err e) = err e

set_up-solver : (n : ℕ) (s t : Solver) → set_up n s ≡ set_up n t
unfolding set_up
set_up-solver n s t = rw (new_model-new_solver s, new_model-new_solver t) refl

module _ (index : CanonicalIndexing) (search : Search) (fuel : ℕ) where
  run_round-solver :
      (n i : ℕ) (given delta : List LexImplication) (s t : Solver)
      → run_round index search fuel n i given delta s
        ≡ run_round index search fuel n i given delta t
  unfolding run_round start_round
  run_round-solver n i given delta s t = rw (set_up-solver n s t) refl

  run_rounds-solver :
      (reduce : List LexImplication → Result (List LexImplication)) (n i k : ℕ)
      (given delta : List LexImplication) (s t : Solver)
      → first (run_rounds index search fuel reduce n i k given delta s)
        ≡ first (run_rounds index search fuel reduce n i k given delta t)
  unfolding run_rounds
  run_rounds-solver reduce n i zero given delta s t = refl
  run_rounds-solver reduce n i (suc k) given delta s t =
      rw (run_round-solver n i given delta s t) refl

  run_subgraph_rounds-solver :
      (text : Bytes) (reduce : List LexImplication → Result (List LexImplication)) (n i k : ℕ)
      (given delta : List LexImplication) (s t : Solver)
      → first (run_subgraph_rounds index text search fuel reduce n i k given delta s)
        ≡ first (run_subgraph_rounds index text search fuel reduce n i k given delta t)
  unfolding run_subgraph_rounds start_subgraph_round
  run_subgraph_rounds-solver text reduce n i zero given delta s t = refl
  run_subgraph_rounds-solver text reduce n i (suc k) given delta s t = rw (set_up-solver n s t) refl

-- A method `f` that computes `m` from the solver of the object `a`, and makes its output `out` of
-- what was computed.
module _ (a : CanonizingLexImplicationsAlg) (m : Solver → Result (List LexImplication × Solver))
    (same : (s t : Solver) → first (m s) ≡ first (m t)) (out : List LexImplication → Output) where
  abbrev output : Result (List LexImplication) → Result Output
  output r = r >>= (λ xs. ok (out xs))

  abbrev finish : List LexImplication × Solver → Call
  finish r = ok (out r.0, record a { solver = r.1 })

  first-finish :
      (r : Result (List LexImplication × Solver)) → first (r >>= finish) ≡ output (first r)
  first-finish (ok r) = refl
  first-finish (err e) = refl

  module _ (f : CanonizingLexImplicationsAlg → Call)
      (call : (s : Solver) → f (record a { solver = s }) ≡ (m s >>= finish)) where
    again_from :
        (r : Result (List LexImplication × Solver))
        → m a.solver ≡ r
        → first ((r >>= finish) >>= (λ q. f q.1)) ≡ first (r >>= finish)
    again_from (ok r) e =
        ap first (call r.1)
        ∙ first-finish (m r.1)
        ∙ ap output (same r.1 a.solver)
        ∙ ap (λ q. output (first q)) e
    again_from (err e') e = refl

    again : first (f a >>= (λ q. f q.1)) ≡ first (f a)
    again = rw (call a.solver) (again_from (m a.solver) refl)

module _ (search : Search) (fuel : ℕ) (tool : Tool) (pid : ℕ) (time : Bytes)
    (a : CanonizingLexImplicationsAlg) where
  abbrev n : ℕ
  n = a.n_vertices

  -- On any object, `compute` called a second time, on the object that the first call leaves, has the
  -- same output: the set that it returns, and the name and the text of its file where the time is
  -- the same. It fails when the first call fails.
  pub alg_compute-again :
      first (
        alg_compute search fuel tool pid time a
        >>= (λ q. alg_compute search fuel tool pid time q.1))
      ≡ first (alg_compute search fuel tool pid time a)
  unfolding alg_compute compute
  alg_compute-again =
      again a (compute a.index search fuel (call_reduce tool pid a.index n) n)
        (run_rounds-solver a.index search fuel (call_reduce tool pid a.index n) n 1 (max_len n) []
          [])
        (λ xs. (xs, a.direct_file_name, write n xs time direct a.index))
        (alg_compute search fuel tool pid time) (λ s. refl)

  -- On any object and given set, `extend` called a second time, on the object that the first call
  -- leaves, has the same output.
  alg_extend-again :
      (given : List LexImplication)
      → first (
          alg_extend search fuel tool pid time given a
          >>= (λ q. alg_extend search fuel tool pid time given q.1))
        ≡ first (alg_extend search fuel tool pid time given a)
  unfolding alg_extend extend
  alg_extend-again given =
      again a (extend a.index search fuel (call_reduce_delta tool pid a.index n) n given)
        (run_rounds-solver a.index search fuel (call_reduce_delta tool pid a.index n given) n 1
          (max_len n) given [])
        (λ xs. (xs, a.inc_file_name, write n xs time incremental a.index))
        (alg_extend search fuel tool pid time given) (λ s. refl)

  -- On any object, given set, subgraph and text of the file, `extend` with the subgraph called a
  -- second time, on the object that the first call leaves and with the same text of the file, has
  -- the same output.
  alg_extend_subgraph-again :
      (file : Bytes) (given : List LexImplication) (subgraph : Bytes)
      → first (
          alg_extend_subgraph search fuel tool pid time file given subgraph a
          >>= (λ q. alg_extend_subgraph search fuel tool pid time file given subgraph q.1))
        ≡ first (alg_extend_subgraph search fuel tool pid time file given subgraph a)
  unfolding alg_extend_subgraph extend_subgraph
  alg_extend_subgraph-again file given subgraph =
      let reduce = call_reduce_delta_subgraph tool pid a.index subgraph n in
      again a (extend_subgraph a.index subgraph search fuel reduce n given)
        (run_subgraph_rounds-solver a.index search fuel subgraph (reduce given) n 1 (max_len n)
          given [])
        (λ xs. (
          xs,
          subgraph_file_name subgraph,
          write_subgraph n xs time incremental a.index subgraph file,
        ))
        (alg_extend_subgraph search fuel tool pid time file given subgraph) (λ s. refl)
