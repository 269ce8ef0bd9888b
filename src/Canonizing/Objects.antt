-- ===== src/Canonizing/Objects.antt =====
-- The objects of core/CanonizingLexImplicationsAlg.h and their methods, and the runs of core/Main.cc
-- with them.
pub mod Again
mod Tests
use phd_thesis_src.Prelude.{ℕ, List, [], ℤ, Result, ok, ◌>>=◌}
use phd_thesis_src.Text.{Bytes}
use phd_thesis_src.Sat.Semantics.{Search}
use phd_thesis_src.Constraints.{Solver, new_solver}
use phd_thesis_src.Constraints.Initial.{new_model-new_solver}
use phd_thesis_src.Canonizing.{
  CanonicalIndexing, LexImplication, max_len, set_up, start_round, run_round, run_rounds, extend,
  compute,
}
use phd_thesis_src.Canonizing.Subgraph.{start_subgraph_round, run_subgraph_rounds, extend_subgraph}
use phd_thesis_src.Canonizing.Main.{
  direct, incremental, incremental_from, run_incremental, incremental_subgraph_from,
}
use phd_thesis_src.Reducer.Texts.{Tool}
use phd_thesis_src.Reducer.{call_reduce, call_reduce_delta, call_reduce_delta_subgraph}
use phd_thesis_src.Writer.{lex_implications_file_writer}
use phd_thesis_src.Writer.Files.{
  Output, direct_file_name as direct_name, inc_file_name as inc_name, subgraph_file_name,
}

-- The fields of the class.
pub record CanonizingLexImplicationsAlg : Type 0 where
  pub n_vertices : ℕ
  pub reifs : List ((ℤ × ℤ) × ℤ)
  pub solver : Solver
  pub index : CanonicalIndexing
  pub inc_file_name : Bytes
  pub direct_file_name : Bytes

-- The constructor.
pub new_alg : ℕ → CanonicalIndexing → CanonizingLexImplicationsAlg
new_alg n index = record {
  n_vertices = n;
  reifs = [];
  solver = new_solver;
  index = index;
  inc_file_name = inc_name n index;
  direct_file_name = direct_name n index;
}

-- What a method returns and writes, and the object that it leaves.
abbrev pub Call : Type 0
Call = Result (Output × CanonizingLexImplicationsAlg)

-- The public methods of the class, over any state.
record LexImplicationsAlg (S : Type 0) : Type 0 where
  pub new : ℕ → CanonicalIndexing → S
  pub compute : S → Result (Output × S)
  pub extend : List LexImplication → S → Result (Output × S)
  pub extend_subgraph : List LexImplication → Bytes → S → Result (Output × S)

-- `time` is the text of the time that a call takes.
module _ (search : Search) (fuel : ℕ) (tool : Tool) (pid : ℕ) (time : Bytes) where
  pub alg_compute : CanonizingLexImplicationsAlg → Call
  alg_compute a =
      let n = a.n_vertices in
      let w = lex_implications_file_writer in
      compute a.index search fuel (call_reduce tool pid a.index n) n a.solver >>= (λ r.
        ok
          ((r.0, a.direct_file_name, w.write n r.0 time direct a.index), record a { solver = r.1 }))

  pub alg_extend : List LexImplication → CanonizingLexImplicationsAlg → Call
  alg_extend given a =
      let n = a.n_vertices in
      let w = lex_implications_file_writer in
      extend a.index search fuel (call_reduce_delta tool pid a.index n) n given a.solver >>= (λ r.
        ok (
          (r.0, a.inc_file_name, w.write n r.0 time incremental a.index),
          record a { solver = r.1 },
        ))

  -- `file` is the text of the file before the call.
  pub alg_extend_subgraph :
      Bytes → List LexImplication → Bytes → CanonizingLexImplicationsAlg → Call
  alg_extend_subgraph file given subgraph a =
      let n = a.n_vertices in
      let w = lex_implications_file_writer in
      extend_subgraph a.index subgraph search fuel
        (call_reduce_delta_subgraph tool pid a.index subgraph n) n given a.solver
      >>= (λ r. ok (
        (
          r.0,
          subgraph_file_name subgraph,
          w.write_subgraph n r.0 time incremental a.index subgraph file,
        ),
        record a { solver = r.1 },
      ))

  abbrev lex_implications_alg : Bytes → LexImplicationsAlg CanonizingLexImplicationsAlg
  lex_implications_alg file = record {
    new = new_alg;
    compute = alg_compute;
    extend = alg_extend;
    extend_subgraph = alg_extend_subgraph file;
  }
