-- ===== src/Reducer/Interface.antt =====
-- The public methods of core/LexImplicationsReducer.h, over any state. Its clients are the methods of
-- core/CanonizingLexImplicationsAlg.cc, which make a new reducer for each call.
use phd_thesis_src.Prelude.{ℕ, List, Result}
use phd_thesis_src.Text.{Bytes}
use phd_thesis_src.Canonizing.{CanonicalIndexing, LexImplication}

pub record ImplicationsReducer (S : Type 0) : Type 0 where
  pub new : ℕ → CanonicalIndexing → Result S
  pub new_subgraph : ℕ → CanonicalIndexing → Bytes → Result S
  pub reduce : List LexImplication → S → Result (List LexImplication × S)
  pub reduce_delta :
      List LexImplication → List LexImplication → S → Result (List LexImplication × S)
