-- ===== src/GraphReader/Tests.antt =====
-- A file with two graphs on three vertices.
use phd_thesis_src.Prelude.{◌<◌, ◌≡◌, refl, [], ◌∷◌, pos, arith, length, ok, Returns}
use phd_thesis_src.Text.{Bytes, codes}
use phd_thesis_src.GraphReader.{good, read_line, read_graph}
use phd_thesis_src.GraphReader.Bounds.{IsRead, read_graph-IsRead}

abbrev file : Bytes
file = codes "010\n111\n"

second_line : read_line 2 [] (good file) ≡ codes "111"
unfolding read_line
second_line = refl

past_the_end : read_line 3 [] (good file) ≡ []
unfolding read_line
past_the_end = refl

-- The three entries of the triangle of the first graph are read as its first row.
first_graph :
    read_graph 9 file 2
    ≡ ok (record {
      elements = pos 0 ∷ pos 1 ∷ pos 0 ∷ pos 0 ∷ pos 0 ∷ pos 0 ∷ pos 0 ∷ pos 0 ∷ pos 0 ∷ [];
      n_rows = 3;
      n_cols = 3;
    })
unfolding read_graph
first_graph = refl

short : length (read_line 1 [] (good file)) < 9
unfolding read_line
short = omega arith

read_graph-IsRead_example : Returns (read_graph 9 file 2) (IsRead (read_line 1 [] (good file)))
read_graph-IsRead_example = read_graph-IsRead 9 file 2 short
