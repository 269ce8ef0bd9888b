-- ===== src/Writer.antt =====
-- core/LexImplicationsFileWriter.cc: sets of implications as Prolog terms. The computing time is a
-- parameter, as the text that `<<` gives for it.
pub mod Interface
pub mod Reader
pub mod RoundTrip
pub mod Files
mod Tests
use phd_thesis_src.Prelude.{ℕ, suc, ◌+◌, List, [], ◌∷◌, ◌++◌, length}
use phd_thesis_src.Text.{Bytes, codes, show_nat}
use phd_thesis_src.Canonizing.{
  CanonicalIndexing, upper_triangle_rows, upper_triangle_cols, LexImplication,
}
use phd_thesis_src.Canonizing.Main.{CompType, direct, incremental}
use phd_thesis_src.Writer.Interface.{ImplicationsFileWriter}

-- The numbers of the permutation from 1 on, with a comma between them.
unfoldable pub perm_text : List ℕ → Bytes → Bytes
unfolding show_nat
perm_text [] rest = rest
perm_text (p ∷ []) rest = show_nat (p + 1) rest
perm_text (p ∷ q ∷ ps) rest = show_nat (p + 1) (b',' ∷ perm_text (q ∷ ps) rest)

-- `lexImpToPlTerm`, in front of a text.
unfoldable pub lex_imp_to_pl_term : LexImplication → Bytes → Bytes
unfolding perm_text show_nat
lex_imp_to_pl_term imp rest =
    codes "leximp([" ++ perm_text imp.perm (codes "]," ++ show_nat imp.length (codes ")" ++ rest))

-- The loop over the implications.
unfoldable pub terms_text : List LexImplication → Bytes → Bytes
unfolding lex_imp_to_pl_term
terms_text [] rest = rest
terms_text (x ∷ []) rest = lex_imp_to_pl_term x rest
terms_text (x ∷ y ∷ xs) rest = lex_imp_to_pl_term x (codes ", \n" ++ terms_text (y ∷ xs) rest)

abbrev pub comp_type_text : CompType → Bytes
comp_type_text direct = codes "direct, "
comp_type_text incremental = codes "incremental, "

abbrev pub indexing_text : CanonicalIndexing → Bytes
indexing_text upper_triangle_rows = codes "rowise, "
indexing_text upper_triangle_cols = codes "colwise, "

-- From the size on; `tail` is what follows the last implication.
unfoldable pub set_text : List LexImplication → Bytes → Bytes → Bytes
unfolding terms_text show_nat
set_text leximps comp_time tail =
    codes "size("
    ++ show_nat (length leximps)
        (codes "), time(" ++ (comp_time ++ (codes "), [\n" ++ terms_text leximps tail)))

-- The text of a new file.
unfoldable pub write : ℕ → List LexImplication → Bytes → CompType → CanonicalIndexing → Bytes
unfolding set_text show_nat
write nvertices leximps comp_time comp_type index =
    codes "res("
    ++ show_nat nvertices (
        codes ", "
        ++ (comp_type_text comp_type
            ++ (indexing_text index ++ set_text leximps comp_time (codes "])."))))

-- With a subgraph: the text is put at the end of the file, whose text was `file`.
unfoldable pub write_subgraph :
    ℕ → List LexImplication → Bytes → CompType → CanonicalIndexing → Bytes → Bytes → Bytes
unfolding set_text show_nat
write_subgraph nvertices leximps comp_time comp_type index subgraph file =
    file
    ++ (codes "res("
        ++ show_nat nvertices (
            codes ", "
            ++ (comp_type_text comp_type
                ++ (indexing_text index
                    ++ (subgraph ++ (codes ", " ++ set_text leximps comp_time (codes "]).\n")))))))

-- The implementation of the class.
abbrev pub lex_implications_file_writer : ImplicationsFileWriter
lex_implications_file_writer = record { write = write; write_subgraph = write_subgraph }
