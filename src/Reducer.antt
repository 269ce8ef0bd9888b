-- ===== src/Reducer.antt =====
-- core/LexImplicationsReducer.cc: the files that it writes for the external reducer, and the choice
-- of the implications that it keeps. The external program is a parameter.
pub mod Interface
pub mod Construct
pub mod Clauses
pub mod Texts
pub mod Row
pub mod Adjacency
pub mod Numbering
pub mod Cache
pub mod Gates
pub mod Strings
pub mod Files
pub mod Output
pub mod Kept
pub mod Units
pub mod Reduced
pub mod Delta
pub mod Tests
use phd_thesis_src.Prelude.{
  ℕ, zero, suc, ◌+◌, ◌-◌, ◌*◌, ◌/◌, ◌%◌, List, [], ◌∷◌, ◌++◌, map, ℤ, pos, negsuc, ◌-ℤ◌, ◌==◌,
  ◌==ℤ◌, length, get_elem?, none, some, Result, ok, err, undefined_access, ◌>>=◌, orelse,
  if◌then◌else◌,
}
use phd_thesis_src.Text.{Bytes, codes, show_nat, show_int, atoi, split_lines, drop_last}
use phd_thesis_src.Matrix.{
  Matrix, new_matrix, get, set, permute, upper_triangle, core_lower_triangle,
}
use phd_thesis_src.Constraints.{neg}
use phd_thesis_src.Constraints.IffCache.{find}
use phd_thesis_src.Canonizing.{
  CanonicalIndexing, upper_triangle_rows, upper_triangle_cols, LexImplication,
}
use phd_thesis_src.Canonizing.Subgraph.{int_sqrt}
use phd_thesis_src.Reducer.Interface.{ImplicationsReducer}
use phd_thesis_src.Reducer.Construct.{
  LexImplicationsReducer, fill_row, fill_rows, with_fields, new_reducer, new_reducer_subgraph,
}
use phd_thesis_src.Reducer.Clauses.{
  indexing, permuted_string, iff_clauses, remember, tseiten_pair, tseiten_pairs, iff_reif,
  implication_clause, bool_arrays_lex_implication, tseiten_set, given_set, subgraph_units,
  clause_set,
}
use phd_thesis_src.Reducer.Texts.{
  clause_text, clauses_text, header_text, Tool, command, read_indices, run_reducer, select,
}

pub write_tseiten :
    List LexImplication → LexImplicationsReducer → Result (List (List ℤ) × LexImplicationsReducer)
unfolding tseiten_set
write_tseiten leximps r = indexing r.index r.adj_matrix >>= (λ arr₁. tseiten_set arr₁ leximps r)

pub write_tseiten_delta :
    List LexImplication
    → List LexImplication
    → LexImplicationsReducer
    → Result (List (List ℤ) × LexImplicationsReducer)
unfolding given_set tseiten_set subgraph_units
write_tseiten_delta leximps delta r = indexing r.index r.adj_matrix >>= (λ arr₁.
    given_set arr₁ leximps r >>= (λ p. tseiten_set arr₁ delta p.1 >>= (λ q.
      subgraph_units (int_sqrt (length q.1.subgraph_str)) 0 q.1.subgraph_str q.1
      >>= (λ units. ok (p.0 ++ (q.0 ++ units), q.1)))))

pub write_implications :
    List LexImplication → LexImplicationsReducer → Result (Bytes × LexImplicationsReducer)
unfolding clause_set header_text clauses_text
write_implications leximps r =
    let k = int_sqrt (length r.subgraph_str) in
    let clauses = length r.iff_reif_cache * 4 + length leximps + (length r.subgraph_str - k) in
    indexing r.index r.adj_matrix >>= (λ arr₁.
      clause_set arr₁ leximps r
      >>= (λ q. ok (header_text (r.next_bool_id - 1) clauses (clauses_text q.0 []), q.1)))

pub write_implications_delta :
    List LexImplication
    → List LexImplication
    → LexImplicationsReducer
    → Result (Bytes × LexImplicationsReducer)
unfolding clause_set header_text clauses_text
write_implications_delta leximps delta r =
    let clauses = length r.iff_reif_cache * 4 + length leximps + length delta in
    indexing r.index r.adj_matrix >>= (λ arr₁.
      clause_set arr₁ delta r
      >>= (λ q. ok (header_text (r.next_bool_id - 1) clauses (clauses_text q.0 []), q.1)))

pub reduce :
    Tool
    → List LexImplication
    → LexImplicationsReducer
    → Result (List LexImplication × LexImplicationsReducer)
unfolding write_tseiten write_implications run_reducer select clauses_text
reduce tool leximps r = write_tseiten leximps r >>= (λ t. write_implications leximps t.1 >>= (λ q.
    select leximps (run_reducer tool q.1 (clauses_text t.0 []) q.0)
    >>= (λ reduced. ok (reduced, q.1))))

pub reduce_delta :
    Tool
    → List LexImplication
    → List LexImplication
    → LexImplicationsReducer
    → Result (List LexImplication × LexImplicationsReducer)
unfolding write_tseiten_delta write_implications_delta run_reducer select clauses_text
reduce_delta tool leximps delta r = write_tseiten_delta leximps delta r >>= (λ t.
    write_implications_delta leximps delta t.1 >>= (λ q.
      select delta (run_reducer tool q.1 (clauses_text t.0 []) q.0)
      >>= (λ reduced. ok (reduced, q.1))))

-- The implementation of the class, in the process `pid`.
abbrev lex_implications_reducer : Tool → ℕ → ImplicationsReducer LexImplicationsReducer
lex_implications_reducer tool pid = record {
  new = new_reducer pid;
  new_subgraph = new_reducer_subgraph pid;
  reduce = reduce tool;
  reduce_delta = reduce_delta tool;
}

-- A new reducer at each call, as in `compute` and `extend`.
pub call_reduce :
    Tool → ℕ → CanonicalIndexing → ℕ → List LexImplication → Result (List LexImplication)
unfolding new_reducer reduce
call_reduce tool pid index n leximps =
    let c = lex_implications_reducer tool pid in
    c.new n index >>= (λ r. c.reduce leximps r >>= (λ q. ok q.0))

pub call_reduce_delta :
    Tool
    → ℕ
    → CanonicalIndexing
    → ℕ
    → List LexImplication
    → List LexImplication
    → Result (List LexImplication)
unfolding new_reducer reduce_delta
call_reduce_delta tool pid index n leximps delta =
    let c = lex_implications_reducer tool pid in
    c.new n index >>= (λ r. c.reduce_delta leximps delta r >>= (λ q. ok q.0))

-- As in `extend` with a subgraph.
pub call_reduce_delta_subgraph :
    Tool
    → ℕ
    → CanonicalIndexing
    → Bytes
    → ℕ
    → List LexImplication
    → List LexImplication
    → Result (List LexImplication)
unfolding new_reducer_subgraph reduce_delta
call_reduce_delta_subgraph tool pid index subgraph n leximps delta =
    let c = lex_implications_reducer tool pid in
    c.new_subgraph n index subgraph >>= (λ r. c.reduce_delta leximps delta r >>= (λ q. ok q.0))
