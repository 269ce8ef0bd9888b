-- ===== src/Canonizing/Main.antt =====
-- core/Main.cc: the runs that the program chooses between, and its options.
pub mod Incremental
pub mod Whole
pub mod Embedded
mod Tests
use phd_thesis_src.Prelude.{
  ℕ, zero, suc, ◌+◌, ◌-◌, ◌==◌, Bool, true, false, List, [], ◌∷◌, ◌++◌, length, Option, none, some,
  Result, ok, ◌>>=◌, if◌then◌else◌,
}
use phd_thesis_src.Text.{Bytes, codes}
use phd_thesis_src.Sat.Semantics.{Search}
use phd_thesis_src.Constraints.{new_solver}
use phd_thesis_src.Canonizing.{
  CanonicalIndexing, upper_triangle_rows, upper_triangle_cols, LexImplication, extend, compute,
}
use phd_thesis_src.Canonizing.Subgraph.{int_sqrt, extend_subgraph}

-- The reducer of a run, for a number of vertices.
abbrev pub Reducer : Type 0
Reducer = ℕ → List LexImplication → List LexImplication → Result (List LexImplication)

pub data CompType : Type 0 where
  incremental direct : CompType

-- What `getopt` gives one after the other, and the variables that the loop sets. `atoi` is applied;
-- a negative number is not modelled.
pub data Flag : Type 0 where
  flag_i flag_d : ℕ → Flag
  flag_g : List ℕ → Flag
  flag_c flag_r flag_h other : Flag

pub record Options : Type 0 where
  pub n : ℕ
  pub subgraph : List ℕ
  pub index : CanonicalIndexing
  pub comp_type : CompType

-- The loop "parse input"; `none` is the return after the help.
pub parse_input : Options → List Flag → Option Options
parse_input o [] = some o
parse_input o (flag_i k ∷ fs) = parse_input (record o { n = k; comp_type = incremental }) fs
parse_input o (flag_d k ∷ fs) = parse_input (record o { n = k; comp_type = direct }) fs
parse_input o (flag_g g ∷ fs) = parse_input (record o { subgraph = g }) fs
parse_input o (flag_c ∷ fs) = parse_input (record o { index = upper_triangle_cols }) fs
parse_input o (flag_r ∷ fs) = parse_input (record o { index = upper_triangle_rows }) fs
parse_input o (flag_h ∷ fs) = none
parse_input o (other ∷ fs) = parse_input o fs

abbrev pub initial_options : Options
initial_options = record { n = 0; subgraph = []; index = upper_triangle_rows; comp_type = direct }

abbrev pub help : Bytes
help =
    codes
      "complexi: generate compact canonizing lex-implications set for graph search problems. by AVI ITZHAKOV.\n"
    ++ codes "OPTIONS:\n"
    ++ codes "---------------------------------------------------------------------------\n"
    ++ codes "\t-i <max>       | incremental computation\n"
    ++ codes "\t-d <n>         | direct computation\n"
    ++ codes "\t-c             | use upper triangle columns for canonical indexing\n"
    ++ codes "\t-r             | use upper triangle rows for canonical indexing\n"
    ++ codes
        "\t-g <adjmatrix> | embed sub-graph given in adjmatrix (concatenation of adjacency matrix rows)\n"
    ++ codes "\t-h             | help\n"
    ++ codes "---------------------------------------------------------------------------\n"

-- What `main` prints itself.
pub main_text : List Flag → Bytes
unfolding parse_input
main_text flags = elim (parse_input initial_options flags) [
  | none ↦ help
  | some o ↦ if o.n == 0 then codes "Invalid input. Exiting..\n" else []
]

module _ (search : Search) (fuel : ℕ) (reduce_delta : Reducer) where
  -- The loop of `runIncremental`, `k` rounds from `i` vertices on. The source returns nothing here and
  -- in the other runs; what is returned is the local set.
  pub incremental_from :
      CanonicalIndexing → ℕ → ℕ → List LexImplication → Result (List LexImplication)
  incremental_from index i zero canset = ok canset
  incremental_from index i (suc k) canset =
      extend index search fuel (reduce_delta i) i canset new_solver
      >>= (λ r. incremental_from index (suc i) k (canset ++ r.0))

  pub run_incremental : ℕ → CanonicalIndexing → Result (List LexImplication)
  unfolding incremental_from
  run_incremental n index = incremental_from index 3 (suc n - 3) []

  pub incremental_subgraph_from :
      CanonicalIndexing → List ℕ → ℕ → ℕ → List LexImplication → Result (List LexImplication)
  incremental_subgraph_from index subgraph i zero canset = ok canset
  incremental_subgraph_from index subgraph i (suc k) canset =
      extend_subgraph index subgraph search fuel (reduce_delta i) i canset new_solver
      >>= (λ r. incremental_subgraph_from index subgraph (suc i) k (canset ++ r.0))

  pub run_incremental_subgraph : ℕ → CanonicalIndexing → List ℕ → Result (List LexImplication)
  unfolding incremental_subgraph_from
  run_incremental_subgraph n index subgraph =
      let first = int_sqrt (length subgraph) + 1 in
      incremental_subgraph_from index subgraph first (suc n - first) []

  -- The reducer of `compute` is that with no given set.
  pub run_direct :
      ℕ
      → CanonicalIndexing
      → (List LexImplication → Result (List LexImplication))
      → Result (List LexImplication)
  run_direct n index reduce = compute index search fuel reduce n new_solver >>= (λ r. ok r.0)

  abbrev is_empty : List ℕ → Bool
  is_empty [] = true
  is_empty (x ∷ xs) = false

  -- `main`: the exit code, and the local set of the run where there is one.
  pub main :
      (ℕ → List LexImplication → Result (List LexImplication))
      → List Flag
      → Result (ℕ × Option (List LexImplication))
  unfolding parse_input run_incremental run_incremental_subgraph run_direct
  main reduce flags = elim (parse_input initial_options flags) [
    | none ↦ ok (0, none)
    | some o ↦
        if o.n == 0
        then ok (1, none)
        else (if is_empty o.subgraph
            then elim o.comp_type [
              | direct ↦ run_direct o.n o.index (reduce o.n) >>= (λ xs. ok (0, some xs))
              | incremental ↦ run_incremental o.n o.index >>= (λ xs. ok (0, some xs))
            ]
            else run_incremental_subgraph o.n o.index o.subgraph >>= (λ xs. ok (0, some xs)))
  ]
