-- ===== src/GraphReader.antt =====
-- core/GraphReaderWriter.cc: a graph from a line of a file.
pub mod Bounds
mod Tests
use phd_thesis_src.Prelude.{
  ℕ, zero, suc, ◌+◌, ◌-◌, ◌/◌, ◌%◌, ◌==◌, ltb, Bool, true, false, List, [], ◌∷◌, ◌++◌, ℤ, pos,
  length, Result, ok, err, out_of_fuel, ◌>>=◌, if◌then◌else◌,
}
use phd_thesis_src.Text.{Bytes}
use phd_thesis_src.Matrix.{Matrix, new_matrix, set}

-- A stream that can still be read, and one whose end was met.
pub data Stream : Type 0 where
  good : Bytes → Stream
  ended : Stream

-- The text before the end of the line, and the stream after it.
take_line : Bytes → Bytes → Bytes × Stream
take_line line [] = (line, ended)
take_line line (c ∷ cs) = if c == b'\n' then (line, good cs) else take_line (line ++ (c ∷ [])) cs

-- `std::getline`: whether it succeeds, the variable `line` and the stream after it.
get_line : Bytes → Stream → Bool × Bytes × Stream
unfolding take_line
get_line line ended = (false, line, ended)
get_line line (good []) = (false, [], ended)
get_line line (good (c ∷ cs)) = let (l, rest) = take_line [] (c ∷ cs) in (true, l, rest)

-- The loop over the lines, `k` more of them.
pub read_line : ℕ → Bytes → Stream → Bytes
unfolding get_line
read_line zero line input = line
read_line (suc k) line input =
    let r = get_line line input in elim (r.0) [ true ↦ read_line k r.1 r.2 | false ↦ r.1 ]

-- The loop "sum < line.size()", on fuel.
pub grow : ℕ → ℕ → ℕ → ℕ → Result ℕ
grow zero size sum n = err out_of_fuel
grow (suc fuel) size sum n = elim (ltb sum size) [
  | true ↦ grow fuel size (sum + n) (suc n)
  | false ↦ ok n
]

-- The loop that fills the matrix, from character `j` on.
pub fill_cells : ℕ → ℕ → Bytes → Matrix ℤ → Result (Matrix ℤ)
unfolding set
fill_cells n j [] adj = ok adj
fill_cells n j (c ∷ cs) adj =
    set adj (j / n) (j % n) (if c == b'0' then pos 0 else pos 1) >>= fill_cells n (suc j) cs

-- `readGraph` on the text of the file, with fuel for the loop that finds the size.
pub read_graph : ℕ → Bytes → ℕ → Result (Matrix ℤ)
unfolding read_line grow fill_cells new_matrix
read_graph fuel file k =
    let line = read_line (k - 1) [] (good file) in
    grow fuel (length line) 0 1 >>= (λ n. fill_cells n 0 line (new_matrix (pos 0) n n))
