-- ===== src/Reducer/Texts.antt =====
-- core/LexImplicationsReducer.cc: the texts of the two files, the call of the external program, which is
-- a parameter, and the choice of the implications by the numbers that it prints.
use phd_thesis_src.Prelude.{
  ℕ, List, [], ◌∷◌, ◌++◌, map, ℤ, pos, negsuc, ◌-ℤ◌, get_elem?, Result, ok, err, undefined_access,
  ◌>>=◌, orelse,
}
use phd_thesis_src.Text.{Bytes, codes, show_nat, show_int, atoi, split_lines, drop_last}
use phd_thesis_src.Canonizing.{LexImplication}
use phd_thesis_src.Reducer.Construct.{LexImplicationsReducer}

-- A clause as a line, and a header, in front of a text.
unfoldable pub clause_text : List ℤ → Bytes → Bytes
unfolding show_int
clause_text [] rest = b'0' ∷ b'\n' ∷ rest
clause_text (l ∷ ls) rest = show_int l (b' ' ∷ clause_text ls rest)

unfoldable pub clauses_text : List (List ℤ) → Bytes → Bytes
unfolding clause_text
clauses_text [] rest = rest
clauses_text (c ∷ cs) rest = clause_text c (clauses_text cs rest)

unfoldable pub header_text : ℕ → ℕ → Bytes → Bytes
header_text vars clauses rest =
    codes "p cnf " ++ show_nat vars (b' ' ∷ show_nat clauses (b'\n' ∷ rest))

-- What `system` does with the command: from the texts of the two files, that of the third.
abbrev pub Tool : Type 0
Tool = Bytes → Bytes → Bytes → Bytes

pub command : LexImplicationsReducer → Bytes
command r =
    r.reducer_path
    ++ codes " -verb=0"
    ++ b' ' ∷ r.ts_file_name
    ++ b' ' ∷ r.imp_file_name
    ++ b' ' ∷ r.out_file_name

-- The numbers in the lines of the third file, each less one.
unfoldable pub read_indices : Bytes → List ℤ
unfolding atoi split_lines
read_indices text = map (λ line. atoi (drop_last line) -ℤ pos 1) (split_lines [] text)

unfoldable pub run_reducer : Tool → LexImplicationsReducer → Bytes → Bytes → List ℤ
unfolding command read_indices
run_reducer tool r ts imp = read_indices (tool (command r) ts imp)

-- leximps[ res[i] ] for each i
unfoldable pub select : List LexImplication → List ℤ → Result (List LexImplication)
select xs [] = ok []
select xs (pos k ∷ ks) =
    orelse (get_elem? xs k) undefined_access >>= (λ x. select xs ks >>= (λ ys. ok (x ∷ ys)))
select xs (negsuc k ∷ ks) = err undefined_access
