-- ===== src/Writer/Tests.antt =====
-- A file with two implications.
use phd_thesis_src.Prelude.{◌≡◌, refl, List, [], ◌∷◌, ok, arith, Returns}
use phd_thesis_src.Text.{codes}
use phd_thesis_src.Canonizing.{upper_triangle_cols, LexImplication}
use phd_thesis_src.Canonizing.Main.{direct}
use phd_thesis_src.Canonizing.Tests.{cols, swap, swap-IsImplication}
use phd_thesis_src.Canonizing.Tests.Brute.{brute_search, brute_search-IsCorrect}
use phd_thesis_src.Constraints.{new_solver}
use phd_thesis_src.Reducer.Tests.{keep_all, keep_all-IsSound}
use phd_thesis_src.Writer.Files.{
  compute_file, extend_file, FileStands, compute_file-FileStands, extend_file-FileStands,
}
use phd_thesis_src.Writer.{write}
use phd_thesis_src.Writer.Reader.{read_file}
use phd_thesis_src.Writer.RoundTrip.{read_file-write}

abbrev two : List LexImplication
two = record { perm = 1 ∷ 0 ∷ 2 ∷ []; length = 1 } ∷ record { perm = 0 ∷ 11 ∷ []; length = 20 } ∷ []

write-two :
    write 3 two (codes "0.5") direct upper_triangle_cols
    ≡ codes
        "res(3, direct, colwise, size(2), time(0.5), [\nleximp([2,1,3],1), \nleximp([1,12],20)])."
unfolding write
write-two = refl

read_file-write_example :
    read_file 3 2 (write 3 two (codes "0.5") direct upper_triangle_cols) ≡ ok two
read_file-write_example =
    read_file-write 3 2 3 two (codes "0.5") direct upper_triangle_cols (omega arith) (omega arith)
      (refl, (refl, (refl, tt)))

compute_file-FileStands_example :
    Returns
      (compute_file cols brute_search 28 keep_all 7 3 (codes "0.5") new_solver)
      (FileStands cols 3 [])
compute_file-FileStands_example =
    compute_file-FileStands cols brute_search 28 keep_all 7 3 brute_search-IsCorrect
      keep_all-IsSound (omega arith) (omega arith) (codes "0.5") (refl, (refl, (refl, tt)))
      new_solver

extend_file-FileStands_example :
    Returns
      (extend_file cols brute_search 28 keep_all 7 3 (codes "0.5") (swap ∷ []) new_solver)
      (FileStands cols 3 (swap ∷ []))
extend_file-FileStands_example =
    extend_file-FileStands cols brute_search 28 keep_all 7 3 brute_search-IsCorrect keep_all-IsSound
      (omega arith) (omega arith) (codes "0.5") (refl, (refl, (refl, tt))) new_solver (swap ∷ [])
      swap-IsImplication
