-- ===== src/Canonizing/Subgraph/Rounds.antt =====
-- A round of `extend` with a subgraph: what it adds.
use phd_thesis_src.Prelude.{
  append-nil, ℕ, suc, ◌*◌, ◌^◌, ◌<◌, ◌≤◌, ◌≡◌, refl, sym, ap₂, ◌∙◌, subst, true, List, [], ◌++◌,
  arith, All, length, ok, Returns,
}
use phd_thesis_src.Sat.Semantics.{Valuation, Search, IsCorrect}
use phd_thesis_src.Order.{Graph, IsGraph, less_at}
use phd_thesis_src.Constraints.{BoolVarRef, Solver}
use phd_thesis_src.Constraints.Encodes.{Encodes, Encodes_then, Encodes_map}
use phd_thesis_src.Constraints.Lex.Implication.{bool_arrays_lex_lt_implication-Encodes}
use phd_thesis_src.Constraints.Graphs.Filled.{SameGraph}
use phd_thesis_src.Canonizing.{CanonicalIndexing, LexImplication, Round, find_implications}
use phd_thesis_src.Canonizing.SetUp.{SetUpResult, set_up-SetUpResult}
use phd_thesis_src.Canonizing.Impose.{
  cells_of, string, Meets, indexing-string, values-at_cells, string-refs, length-string,
}
use phd_thesis_src.Canonizing.Start.{
  IsImplication, MeetsAll, MeetsAll-congr, string_congr, RoundModel, encode_set-Encodes,
  AreRefs-mono,
}
use phd_thesis_src.Canonizing.Candidates.{has, all_lists, has-all_lists, length-all_lists}
use phd_thesis_src.Canonizing.Decoded.{perm_of, perm_of-Maps, length-perm_of}
use phd_thesis_src.Canonizing.Done.{IsPermutation, MeetsAll-same, no_model-Meets}
use phd_thesis_src.Canonizing.Find.{State, find_implications-Finished}
use phd_thesis_src.Canonizing.Subgraph.{start_subgraph_round}
use phd_thesis_src.Canonizing.Subgraph.Embed.{Contains, Contains-same, embed-Encodes}

module _ (index : CanonicalIndexing) (text : List ℕ) (n side : ℕ)
    (square : length text ≡ side * side) (le : side ≤ n) where
  -- The graph contains the subgraph and meets the set.
  abbrev pub Before : List LexImplication → Graph → Type 0
  Before xs e = Contains text e × MeetsAll index n xs e

  pub record StartResult (k : ℕ) (before : List LexImplication)
      (r : Round × List BoolVarRef × Solver) : Type 0 where
    pub set_up : SetUpResult n r.0
    pub string1 : r.1 ≡ string index n set_up.x1
    pub step :
        Encodes r.0.solver r.2
          (RoundModel index n k (Before before) set_up.x1 set_up.x2)
          (RoundModel index n k (Before before) set_up.x1 set_up.x2)

  start_subgraph_round-StartResult :
      (k : ℕ) (before : List LexImplication) (s : Solver)
      → 0 < n
      → k < length (cells_of index n)
      → All (IsImplication index n) before
      → Returns (start_subgraph_round index text n (suc k) before s) (StartResult k before)
  unfolding start_subgraph_round
  start_subgraph_round-StartResult k before s pos_n lt r =
      let (u, run, a) = set_up-SetUpResult n s pos_n in
      let refs1 = λ (i j : ℕ) (p : i < n) (q : j < n). (a.given.cells1 i j p q).ref in
      let refs2 = λ (i j : ℕ) (p : i < n) (q : j < n). (a.given.cells2 i j p q).ref in
      let str1 = string index n a.x1 in
      let str2 = string index n a.x2 in
      let (s₀, run₀, has) =
        embed-Encodes n side text square le u.g1 a.x1 u.solver a.table1 a.given.valid refs1 in
      let refs1' = AreRefs-mono index n u.solver s₀ a.x1 has.grows refs1 in
      let refs2' = AreRefs-mono index n u.solver s₀ a.x2 has.grows refs2 in
      let (s₁, run₁, less) =
        bool_arrays_lex_lt_implication-Encodes k str2 str1 s₀ has.valid
          (omega (arith, length-string index n a.x2))
          (length-string index n a.x2 ∙ sym (length-string index n a.x1))
          (string-refs index n s₀ a.x2 refs2') (string-refs index n s₀ a.x1 refs1') in
      let (s₂, run₂, rest) =
        encode_set-Encodes index n u.g1 a.x1 before s₁ less.valid a.table1
          (AreRefs-mono index n s₀ s₁ a.x1 less.grows refs1') r in
      let same = λ (v : Valuation).
        ap₂ (λ b c. less_at k b c) (values-at_cells v a.x2 (cells_of index n))
          (values-at_cells v a.x1 (cells_of index n)) in
      let M = RoundModel index n k (Before before) a.x1 a.x2 in
      let both =
        Encodes_then M has less (λ v p. p.1.0)
          (λ v w p agree q.
            same w
            ∙ ap₂ (λ b c. less_at k b c) (sym (string_congr index n u.solver a.x2 v w refs2 agree))
                (sym (string_congr index n u.solver a.x1 v w refs1 agree))
            ∙ p.0) in
      (
        (u, str1, s₂),
        rw run (
            rw run₀ (
              rw (indexing-string index n u.g1 a.x1 a.table1)
                (rw (indexing-string index n u.g2 a.x2 a.table2) (rw run₁ (rw run₂ refl))))),
        record {
          set_up = a;
          string1 = refl;
          step =
              Encodes_map
                (Encodes_then M both rest (λ v p. p)
                  (λ v w p agree q.
                    MeetsAll-congr index n u.solver a.x1 v w refs1 agree before r p.1.1))
                (λ v p. p) (λ v q. (sym (same v) ∙ q.0.1, (q.0.0, q.1)));
        },
      )

  -- What a round for the length k + 1 adds to `delta`: implications of that length, such that every
  -- graph that contains the subgraph and meets them and the sets before meets the implication of
  -- that length for every permutation.
  pub record RoundDone (k : ℕ) (given delta : List LexImplication)
      (r : List LexImplication × Solver) : Type 0 where
    pub new : List LexImplication
    pub added : r.0 ≡ delta ++ new
    pub implications : All (IsImplication index n) new
    pub meets :
        (e : Graph) (perm : List ℕ)
        → IsGraph n e
        → Before (given ++ delta) e
        → MeetsAll index n new e
        → IsPermutation n perm
        → Meets index n k perm e

  Before-same :
      (xs : List LexImplication)
      → All (IsImplication index n) xs
      → (e f : Graph) → SameGraph n e f
      → Before xs e
      → Before xs f
  Before-same xs r e f same h =
      (Contains-same n side text square le e f same h.0, MeetsAll-same index n e f xs same r h.1)

  module _ (search : Search) (correct : IsCorrect search) where
    -- The constraints and the search of a round.
    pub find_in_round :
        (fuel k : ℕ) (given delta : List LexImplication) (s : Solver)
        → 0 < n
        → k < length (cells_of index n)
        → All (IsImplication index n) (given ++ delta)
        → n ^ n < fuel
        → (q : Round × List BoolVarRef × Solver) × (start_subgraph_round index text n
              (suc k)
              (given ++ delta)
              s
            ≡ ok q)
          × Returns
              (find_implications index search fuel (suc k) q.0 q.1 delta q.2)
              (RoundDone k given delta)
    find_in_round fuel k given delta s pos_n lt r enough =
        let before = given ++ delta in
        let (q, run, start) = start_subgraph_round-StartResult k before s pos_n lt r in
        let a = start.set_up in
        let state : State index n q.0 a k lt (Before before) q.2 [] (all_lists n n) = record {
          step = Encodes_map start.step (λ v p. p.0) (λ v m. (m, tt));
          implications = tt;
          lengths = tt;
          candidates = λ v held.
              let held_u = (start.step.sound v held).0 in
              subst (λ m. has (perm_of a v) (all_lists n m) ≡ true) (length-perm_of a v held_u)
                (has-all_lists n (perm_of a v) (perm_of-Maps a v held_u));
        } in
        let few : length (all_lists n n) < fuel = omega (arith, length-all_lists n n) in
        let (res, run', done) =
          find_implications-Finished index n q.0 a k lt (Before before) search correct fuel q.2 []
            (all_lists n n) delta state few in
        (
          q,
          run,
          (
            res,
            rw (start.string1) (
                subst
                  (λ d.
                    find_implications index search fuel (suc k) q.0 (string index n a.x1) d q.2
                    ≡ ok res)
                  (append-nil delta) run'),
            record {
              new = done.new;
              added = done.added;
              implications = done.implications;
              meets = λ e perm graph m_before m_new p.
                  no_model-Meets index n a k (Before before) done.new res.1 done.step done.none
                    (λ e f same m. Before-same before r e f same m) done.implications e perm graph
                    m_before m_new p;
            },
          ),
        )
