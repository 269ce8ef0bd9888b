-- ===== src/Reducer/Construct.antt =====
-- core/LexImplicationsReducer.h and .cc: the fields of the class and its constructors.
use phd_thesis_src.Prelude.{ℕ, zero, suc, ◌-◌, List, [], ◌++◌, ℤ, pos, Result, ok, ◌>>=◌}
use phd_thesis_src.Text.{Bytes, codes, show_nat}
use phd_thesis_src.Matrix.{Matrix, new_matrix, set}
use phd_thesis_src.Canonizing.{CanonicalIndexing}

-- The fields of the class; an entry of the cache is written in front of the others.
pub record LexImplicationsReducer : Type 0 where
  pub iff_reif_cache : List ((ℤ × ℤ) × ℤ)
  pub imp_file_name : Bytes
  pub ts_file_name : Bytes
  pub out_file_name : Bytes
  pub reducer_path : Bytes
  pub next_bool_id : ℕ
  pub adj_matrix : Matrix ℤ
  pub index : CanonicalIndexing
  pub subgraph_str : Bytes

-- The loops "init adjacency matrix", from the pair (i, j) on, with the next number.
unfoldable pub fill_row : ℕ → ℕ → ℕ → Matrix ℤ → ℕ → Result (Matrix ℤ × ℕ)
fill_row i j zero g id = ok (g, id)
fill_row i j (suc k) g id =
    set g i j (pos id) >>= (λ g₁. set g₁ j i (pos id) >>= (λ g₂. fill_row i (suc j) k g₂ (suc id)))

unfoldable pub fill_rows : ℕ → ℕ → ℕ → Matrix ℤ → ℕ → Result (Matrix ℤ × ℕ)
unfolding fill_row
fill_rows n i zero g id = ok (g, id)
fill_rows n i (suc k) g id =
    fill_row i (suc i) (n - suc i) g id >>= (λ r. fill_rows n (suc i) k r.0 r.1)

-- The other fields as the constructor sets them; `pid` is what `getpid` gives.
abbrev pub with_fields : ℕ → CanonicalIndexing → Matrix ℤ × ℕ → LexImplicationsReducer
with_fields pid index r = record {
  iff_reif_cache = [];
  imp_file_name = codes "implications_" ++ show_nat pid (codes ".dimacs");
  ts_file_name = codes "tseitens_" ++ show_nat pid (codes ".dimacs");
  out_file_name = codes "reduced_" ++ show_nat pid (codes ".indices");
  reducer_path = codes "./glucoseReducer";
  next_bool_id = r.1;
  adj_matrix = r.0;
  index = index;
  subgraph_str = [];
}

unfoldable pub new_reducer : ℕ → ℕ → CanonicalIndexing → Result LexImplicationsReducer
unfolding fill_rows
new_reducer pid n index =
    fill_rows n 0 n (new_matrix (pos 0) n n) 1 >>= (λ r. ok (with_fields pid index r))

-- The constructor with a subgraph calls the other one.
unfoldable pub new_reducer_subgraph :
    ℕ → ℕ → CanonicalIndexing → Bytes → Result LexImplicationsReducer
unfolding new_reducer
new_reducer_subgraph pid n index subgraph =
    new_reducer pid n index >>= (λ r. ok (record r { subgraph_str = subgraph }))
