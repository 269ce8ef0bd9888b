-- ===== src/Canonizing/Main/Tests.antt =====
-- Runs of the loop over the options, and of the program on three vertices.
use phd_thesis_src.Prelude.{◌≡◌, refl, List, [], ◌∷◌, some, none, arith, Returns}
use phd_thesis_src.Canonizing.{upper_triangle_cols}
use phd_thesis_src.Canonizing.Main.{
  Flag, Options, parse_input, initial_options, flag_c, flag_i, flag_g, flag_d, flag_h, incremental,
  run_incremental, run_incremental_subgraph, main, main_text, help,
}
use phd_thesis_src.Canonizing.Main.Whole.{Answer, main-Answer, run_incremental-IsCanonizing}
use phd_thesis_src.Canonizing.Main.Embedded.{
  AnswerOn, run_incremental_subgraph-IsCanonizingOn, main-AnswerOn,
}
use phd_thesis_src.Canonizing.Least.{IsCanonizing}
use phd_thesis_src.Canonizing.Subgraph.Complete.{IsCanonizingOn}
use phd_thesis_src.Canonizing.Tests.{cols, small_powers}
use phd_thesis_src.Canonizing.Tests.Brute.{brute_search, brute_search-IsCorrect}
use phd_thesis_src.Reducer.{call_reduce, call_reduce_delta, call_reduce_delta_subgraph}
use phd_thesis_src.Reducer.Tests.{keep_all, keep_all-IsSound, edge}

-- The options -c -i 5 -g 010, in this order, and the help.
parse_some :
    parse_input initial_options (flag_c ∷ flag_i 5 ∷ flag_g (48 ∷ 49 ∷ 48 ∷ []) ∷ [])
    ≡ some (record {
      n = 5;
      subgraph = 48 ∷ 49 ∷ 48 ∷ [];
      index = upper_triangle_cols;
      comp_type = incremental;
    })
unfolding parse_input
parse_some = refl

parse_help : parse_input initial_options (flag_d 5 ∷ flag_h ∷ []) ≡ none
unfolding parse_input
parse_help = refl

text_help : main_text (flag_d 5 ∷ flag_h ∷ []) ≡ help
unfolding main_text parse_input
text_help = refl

run_incremental-IsCanonizing_example :
    Returns
      (run_incremental brute_search 28 (call_reduce_delta keep_all 7 cols) 3 cols)
      (IsCanonizing cols 3)
run_incremental-IsCanonizing_example =
    run_incremental-IsCanonizing keep_all keep_all-IsSound 7 brute_search brute_search-IsCorrect 28
      cols 3 small_powers

-- The options -i 3 -c.
abbrev three : List Flag
three = flag_i 3 ∷ flag_c ∷ []

abbrev three_options : Options
three_options = record {
  n = 3;
  subgraph = [];
  index = upper_triangle_cols;
  comp_type = incremental;
}

parse_three : parse_input initial_options three ≡ some three_options
unfolding parse_input
parse_three = refl

main-Answer_example :
    Returns
      (main brute_search 28 (call_reduce_delta keep_all 7 cols) (call_reduce keep_all 7 cols) three)
      (Answer three_options)
main-Answer_example =
    main-Answer keep_all keep_all-IsSound 7 brute_search brute_search-IsCorrect 28 three
      three_options parse_three refl (omega arith) small_powers

run_incremental_subgraph-IsCanonizingOn_example :
    Returns
      (run_incremental_subgraph brute_search 28
        (call_reduce_delta_subgraph keep_all 7 cols edge)
        3
        cols
        edge)
      (IsCanonizingOn cols edge 3)
run_incremental_subgraph-IsCanonizingOn_example =
    run_incremental_subgraph-IsCanonizingOn keep_all keep_all-IsSound 7 brute_search
      brute_search-IsCorrect 28 cols edge 2 refl 3 (omega arith) small_powers

-- The options -i 3 -c -g 0110.
abbrev three_edge : List Flag
three_edge = flag_i 3 ∷ flag_c ∷ flag_g edge ∷ []

abbrev edge_options : Options
edge_options = record three_options { subgraph = edge }

parse_edge : parse_input initial_options three_edge ≡ some edge_options
unfolding parse_input
parse_edge = refl

main-AnswerOn_example :
    Returns
      (main brute_search 28
        (call_reduce_delta_subgraph keep_all 7 cols edge)
        (call_reduce keep_all 7 cols)
        three_edge)
      (AnswerOn edge_options)
main-AnswerOn_example =
    main-AnswerOn keep_all keep_all-IsSound 7 brute_search brute_search-IsCorrect 28 three_edge
      edge_options 2 parse_edge refl (omega arith) (omega arith) small_powers
