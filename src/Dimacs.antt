-- ===== src/Dimacs.antt =====
-- `parse_extended_DIMACS_main` of core/Dimacs.h, with the vertices and the edges of a graph. A stream
-- is the text that is left of it. What it calls of Glucose's copy is a parameter: the functions of
-- utils/ParseUtils.h, and `readClause`.
pub mod Symmetric
pub mod Loop
mod Tests
use phd_thesis_src.Prelude.{
  ℕ, zero, suc, ◌==◌, false, List, [], ◌∷◌, ℤ, pos, negsuc, Option, none, some, Result, ok, err,
  out_of_fuel, undefined_access, ◌>>=◌, if◌then◌else◌,
}
use phd_thesis_src.Text.{Bytes, codes}
use phd_thesis_src.Sat.{Lit, mk_lit, Sat, add_clause}
use phd_thesis_src.Matrix.{Matrix, new_matrix, set}

-- `eager_match` takes the text that is expected first; `read_clause` returns the literals, and makes
-- the variables that they need.
pub record Parser : Type 0 where
  pub skip_whitespace : Bytes → Bytes
  pub skip_line : Bytes → Bytes
  pub parse_int : Bytes → Result (ℤ × Bytes)
  pub eager_match : Bytes → Bytes → Result Bytes
  pub read_clause : Bytes → Sat → Result (List Lit × Bytes × Sat)

-- The local variables, and the solver with its matrix.
pub record Parsed : Type 0 where
  pub vars : ℤ
  pub clauses : ℤ
  pub cnt : ℕ
  pub solver : Sat
  pub adj_matrix : Option (Matrix Lit)

-- A size or an index of the matrix; a negative one is outside of it.
abbrev pub index_of : ℤ → Result ℕ
index_of (pos n) = ok n
index_of (negsuc n) = err undefined_access

-- What the pointer of the solver points to.
abbrev pub matrix_of : Option (Matrix Lit) → Result (Matrix Lit)
matrix_of none = err undefined_access
matrix_of (some m) = ok m

module _ (p : Parser) where
  -- "p cnf" and two numbers.
  pub parse_header : Bytes → Parsed → Result (Parsed × Bytes)
  parse_header input st = p.eager_match (codes "p cnf") input >>= (λ s.
      p.parse_int s
      >>= (λ v. p.parse_int v.1 >>= (λ c. ok (record st { vars = v.0; clauses = c.0 }, c.1))))

  -- 'v' and the number of vertices.
  pub parse_vertices : Bytes → Parsed → Result (Parsed × Bytes)
  unfolding new_matrix
  parse_vertices input st = p.parse_int input >>= (λ n. index_of n.0 >>= (λ nvert.
      ok (record st { adj_matrix = some (new_matrix (record { x = pos 0 }) nvert nvert) }, n.1)))

  -- 'e', two vertices and a variable.
  pub parse_edge : Bytes → Parsed → Result (Parsed × Bytes)
  unfolding set mk_lit
  parse_edge input st = p.parse_int input >>= (λ a. p.parse_int a.1 >>= (λ b.
      p.parse_int b.1 >>= (λ c.
        let l = mk_lit c.0 false in
        matrix_of st.adj_matrix >>= (λ m. index_of a.0 >>= (λ i. index_of b.0 >>= (λ j.
          set m i j l
          >>= (λ m₁. set m₁ j i l >>= (λ m₂. ok (record st { adj_matrix = some m₂ }, c.1)))))))))

  -- cnt++, `readClause` and `addClause_`
  pub parse_clause : Bytes → Parsed → Result (Parsed × Bytes)
  parse_clause input st =
      p.read_clause input st.solver
      >>= (λ r. ok (record st { cnt = suc st.cnt; solver = add_clause r.0 r.2 }, r.1))

  -- One round of the loop at a character `c`. The second test for 'p' is never reached.
  pub parse_extended_item : ℕ → Bytes → Parsed → Result (Parsed × Bytes)
  unfolding parse_header parse_vertices parse_edge parse_clause
  parse_extended_item c cs st =
      if c == b'p'
      then parse_header (c ∷ cs) st
      else if c == b'c'
      then ok (st, p.skip_line (c ∷ cs))
      else if c == b'v'
      then parse_vertices cs st
      else if c == b'e'
      then parse_edge cs st
      else parse_clause (c ∷ cs) st

  -- The loop, on fuel. The warnings that it prints at the end are left out.
  pub parse_extended_dimacs_main : ℕ → Bytes → Parsed → Result Parsed
  unfolding parse_extended_item
  parse_extended_dimacs_main zero input st = err out_of_fuel
  parse_extended_dimacs_main (suc fuel) input st = elim (p.skip_whitespace input) [
    | [] ↦ ok st
    | c ∷ cs ↦ parse_extended_item c cs st >>= (λ r. parse_extended_dimacs_main fuel r.1 r.0)
  ]

  -- The call with the stream of a file; `stream_buffer` is the text of the file.
  pub parse_extended_dimacs :
      {File : Type 0} (stream_buffer : File → Bytes)
      → ℕ
      → File
      → Sat
      → Option (Matrix Lit)
      → Result Parsed
  unfolding parse_extended_dimacs_main
  parse_extended_dimacs stream_buffer fuel input_stream solver adj_matrix =
      parse_extended_dimacs_main fuel (stream_buffer input_stream) (record {
        vars = pos 0;
        clauses = pos 0;
        cnt = 0;
        solver = solver;
        adj_matrix = adj_matrix;
      })
