-- ===== src/Writer/Interface.antt =====
-- The public methods of core/LexImplicationsFileWriter.h, which has no fields. Its clients are the
-- methods of core/CanonizingLexImplicationsAlg.cc, which name the file.
use phd_thesis_src.Prelude.{ℕ, List}
use phd_thesis_src.Text.{Bytes}
use phd_thesis_src.Canonizing.{CanonicalIndexing, LexImplication}
use phd_thesis_src.Canonizing.Main.{CompType}

-- The text of the file; the time is the text that `<<` gives for it. With a subgraph the last
-- argument is the text of the file before.
pub record ImplicationsFileWriter : Type 0 where
  pub write : ℕ → List LexImplication → Bytes → CompType → CanonicalIndexing → Bytes
  pub write_subgraph :
      ℕ → List LexImplication → Bytes → CompType → CanonicalIndexing → Bytes → Bytes → Bytes
