-- ===== src/Dimacs/Tests.antt =====
-- Small files, with functions that read one character for a number and for a clause.
use phd_thesis_src.Prelude.{
  ◌-◌, ◌==◌, ◌≡◌, refl, List, [], ◌∷◌, ℤ, pos, none, some, Result, ok, err, exited,
  undefined_access, if◌then◌else◌,
}
use phd_thesis_src.Text.{Bytes, codes}
use phd_thesis_src.Sat.{Lit, Sat, mk_lit, new_sat}
use phd_thesis_src.Dimacs.{Parser, Parsed, parse_extended_dimacs_main, parse_extended_dimacs}

abbrev digit : Bytes → Result (ℤ × Bytes)
digit [] = err exited
digit (c ∷ cs) = ok (pos (c - 48), cs)

abbrev same_text : Bytes → Bytes → Result Bytes
same_text [] s = ok s
same_text (c ∷ cs) [] = err exited
same_text (c ∷ cs) (d ∷ ds) = if c == d then same_text cs ds else err exited

abbrev no_literals : Bytes → Sat → Result (List Lit × Bytes × Sat)
no_literals [] s = err exited
no_literals (c ∷ cs) s = ok ([], cs, s)

abbrev rest_of : Bytes → Bytes
rest_of [] = []
rest_of (c ∷ cs) = cs

abbrev digits : Parser
digits = record {
  skip_whitespace = λ s. s;
  skip_line = rest_of;
  parse_int = digit;
  eager_match = same_text;
  read_clause = no_literals;
}

abbrev start : Parsed
start = record { vars = pos 0; clauses = pos 0; cnt = 0; solver = new_sat; adj_matrix = none }

-- A comment of one character, a graph with one edge, and a clause.
abbrev graph_file : Bytes
graph_file = codes "cv2e0130"

extended_text :
    parse_extended_dimacs digits (λ text. text) 9 graph_file new_sat none
    ≡ ok (record {
      vars = pos 0;
      clauses = pos 0;
      cnt = 1;
      solver = record { n_vars = 0; clauses = [] ∷ []; model = [] };
      adj_matrix = some (record {
        elements =
            record { x = pos 0 }
            ∷ record { x = pos 6 }
            ∷ record { x = pos 6 }
            ∷ record { x = pos 0 }
            ∷ [];
        n_rows = 2;
        n_cols = 2;
      });
    })
unfolding parse_extended_dimacs mk_lit
extended_text = refl

edge_first : parse_extended_dimacs_main digits 9 (codes "e013") start ≡ err undefined_access
unfolding parse_extended_dimacs_main
edge_first = refl
