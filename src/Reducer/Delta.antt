-- ===== src/Reducer/Delta.antt =====
-- `reduceDelta` of core/LexImplicationsReducer.cc, and the algorithm of
-- core/CanonizingLexImplicationsAlg.cc that extends a set with the reducer in its place.
use phd_thesis_src.Prelude.{
  ℕ, ◌+◌, ◌-◌, ◌*◌, ◌^◌, ◌<◌, ◌≤◌, ◌≡◌, refl, ◌∙◌, List, [], ◌++◌, ℤ, pos, arith, All, All-append,
  length, Returns,
}
use phd_thesis_src.Text.{Bytes}
use phd_thesis_src.Sat.Semantics.{Valuation, Search, IsCorrect}
use phd_thesis_src.Order.{Graph, IsGraph}
use phd_thesis_src.Matrix.{Matrix}
use phd_thesis_src.Matrix.Strings.{IsTable}
use phd_thesis_src.Constraints.{Solver}
use phd_thesis_src.Constraints.Semantics.{IsRef}
use phd_thesis_src.Canonizing.{CanonicalIndexing, LexImplication, extend, max_len}
use phd_thesis_src.Canonizing.Start.{IsImplication, MeetsAll}
use phd_thesis_src.Canonizing.Covers.{Implies, Covers, extend-Covers}
use phd_thesis_src.Canonizing.Subgraph.Embed.{Contains, root_le, root_fits}
use phd_thesis_src.Canonizing.Subgraph.Complete.{ImpliesOn}
use phd_thesis_src.Reducer.Construct.{LexImplicationsReducer}
use phd_thesis_src.Reducer.Texts.{Tool}
use phd_thesis_src.Canonizing.Subgraph.{int_sqrt}
use phd_thesis_src.Reducer.{
  write_tseiten_delta, write_implications_delta, reduce_delta, call_reduce_delta,
  call_reduce_delta_subgraph,
}
use phd_thesis_src.Reducer.Gates.{Holds, IsClause}
use phd_thesis_src.Reducer.Strings.{Off, ShowsGraph, string_lem}
use phd_thesis_src.Reducer.Files.{
  IsReady, Grows-IsReady, tseiten_set-SetResult, clause_set-ClausesResult, given_set-GivenResult,
}
use phd_thesis_src.Reducer.Kept.{IsSound, ImpliesIn, MeetsAll-Implied, select-ImpliesIn}
use phd_thesis_src.Reducer.Units.{subgraph_units-UnitsResult}
use phd_thesis_src.Reducer.Reduced.{
  IsNew, new_reducer-IsNew, new_reducer_subgraph-IsNew, IsReady-new,
}

-- The graphs that contain the subgraph and meet the given set.
abbrev Context : CanonicalIndexing → ℕ → Bytes → List LexImplication → Graph → Type 0
Context index n text given e = Contains text e × MeetsAll index n given e

module _ (index : CanonicalIndexing) (n m : ℕ) (g : Matrix ℤ) (x : ℕ → ℕ → ℤ) (t : IsTable n g x)
    (refs : Off n (λ i j. IsRef m (x i j))) (zeros : (i : ℕ) → i < n → x i i ≡ pos 0)
    (shows : (e : Graph) → IsGraph n e → (v : Valuation) × ShowsGraph n x v e) (tool : Tool)
    (sound : IsSound tool) (side : ℕ) (text : Bytes) (square : length text ≡ side * side)
    (le : side ≤ n) where
  reduce_delta-ImpliesIn :
      (given xs : List LexImplication) (r : LexImplicationsReducer)
      → All (IsImplication index n) given
      → All (IsImplication index n) xs
      → IsReady index n m g x t refs r
      → r.subgraph_str ≡ text
      → Returns (reduce_delta tool given xs r) λ q.
        All (IsImplication index n) q.0 × ImpliesIn index n (Context index n text given) q.0 xs
  unfolding reduce_delta write_tseiten_delta write_implications_delta
  reduce_delta-ImpliesIn given xs r given_ok h ready whole =
      let (a, run₁, (a_ok, grows₁, follow₁)) =
        given_set-GivenResult index n m g x t refs given r given_ok ready in
      let ready₁ = Grows-IsReady index n m g x t refs r a.1 ready grows₁ in
      let (p, run₂, (p_ok, grows₂, follow₂)) =
        tseiten_set-SetResult index n m g x t refs xs a.1 h ready₁ in
      let ready₂ = Grows-IsReady index n m g x t refs a.1 p.1 ready₁ grows₂ in
      let (c, run₃, written) = clause_set-ClausesResult index n m g x t refs xs p.1 h ready₂ in
      let same_text : p.1.subgraph_str ≡ text = grows₂.subgraph ∙ grows₁.subgraph ∙ whole in
      let (us, units_run, (us_ok, units_follow)) =
        subgraph_units-UnitsResult n m g x t refs zeros (int_sqrt (length text)) 0 text p.1
          ready₂.0.0 (root_le n side text square le) (root_fits n side text square le) in
      let (ys, run₄, result) =
        select-ImpliesIn index n m g x t refs tool sound (Context index n text given) xs h shows p.1
          (a.0 ++ (p.0 ++ us)) (p.1.next_bool_id - 1)
          (length p.1.iff_reif_cache * 4 + length given + length xs)
          (All-append IsClause a.0 (p.0 ++ us) a_ok (All-append IsClause p.0 us p_ok us_ok))
          (λ v e i shown context.
            All-append (Holds v) a.0 (p.0 ++ us)
              (follow₁ v (grows₂.older v i)
                (MeetsAll-Implied index n m g x t refs v e given shown given_ok context.1))
              (All-append (Holds v) p.0 us (follow₂ v i) (units_follow v e shown context.0)))
          c written in
      (
        (ys, c.1),
        rw (string_lem index n m g x t refs r ready.0) (
            rw run₁ (
              rw run₂ (
                rw same_text (
                  rw units_run (
                    rw (string_lem index n m g x t refs p.1 ready₂.0) (rw run₃ (rw run₄ refl))))))),
        result,
      )

module _ (tool : Tool) (sound : IsSound tool) (pid n : ℕ) (index : CanonicalIndexing) where
  reduce_delta-new :
      (k : ℕ) (text : Bytes) (r : LexImplicationsReducer)
      → IsNew index n text r
      → length text ≡ k * k
      → k ≤ n
      → (given xs : List LexImplication) → All (IsImplication index n) given
      → All (IsImplication index n) xs
      → Returns (reduce_delta tool given xs r) λ q.
        All (IsImplication index n) q.0 × ImpliesIn index n (Context index n text given) q.0 xs
  reduce_delta-new k text r new square le given xs given_ok h =
      let a = new.numbers in
      reduce_delta-ImpliesIn index n (r.next_bool_id - 1) r.adj_matrix a.x a.table a.refs a.zeros
        a.shows tool sound k text square le given xs r given_ok h (IsReady-new index n text r new)
        new.same_text

  -- With an external program that is sound, `reduceDelta` of a new reducer for a subgraph, whose
  -- text has k rows of length k with k up to n, on two sets of implications for n vertices returns
  -- implications for n vertices. Every graph on n vertices that contains the subgraph and meets the
  -- first set and these meets the second set.
  pub call_reduce_delta_subgraph-ImpliesOn :
      (k : ℕ) (text : Bytes)
      → length text ≡ k * k
      → k ≤ n
      → (given xs : List LexImplication) → All (IsImplication index n) given
      → All (IsImplication index n) xs
      → Returns
          (call_reduce_delta_subgraph tool pid index text n given xs)
          λ ys. All (IsImplication index n) ys × ImpliesOn index text n given ys xs
  unfolding call_reduce_delta_subgraph
  call_reduce_delta_subgraph-ImpliesOn k text square le given xs given_ok h =
      let (r, run, new) = new_reducer_subgraph-IsNew pid n index text in
      let (q, run', (q_ok, implies)) =
        reduce_delta-new k text r new square le given xs given_ok h in
      (q.0, rw run (rw run' refl), (q_ok, λ e graph has meets. implies e graph (has, meets)))

  -- With an external program that is sound, `reduceDelta` of a new reducer on two sets of
  -- implications for n vertices returns implications for n vertices. Every graph on n vertices that
  -- meets the first set and these meets the second set.
  pub call_reduce_delta-Implies :
      (given xs : List LexImplication)
      → All (IsImplication index n) given
      → All (IsImplication index n) xs
      → Returns
          (call_reduce_delta tool pid index n given xs)
          λ ys. All (IsImplication index n) ys × Implies index n given ys xs
  unfolding call_reduce_delta
  call_reduce_delta-Implies given xs given_ok h =
      let (r, run, new) = new_reducer-IsNew pid n index in
      let (q, run', (q_ok, implies)) =
        reduce_delta-new 0 [] r new refl (omega arith) given xs given_ok h in
      (
        q.0,
        rw run (rw run' refl),
        (q_ok, λ e graph given_meets meets. implies e graph (tt, given_meets) meets),
      )

  module _ (search : Search) (correct : IsCorrect search) (fuel : ℕ) (pos_n : 0 < n)
      (enough : n ^ n < fuel) (s : Solver) where
    -- With a correct search, a sound external program, n > 0, fuel above n ^ n and a given set of
    -- implications for n vertices, `extend` with the reducer of the program returns on any solver.
    -- Every graph on n vertices that meets the given set and the one returned meets the implications
    -- of all lengths up to the number of pairs less one, for every permutation.
    pub extend-call_reduce_delta :
        (given : List LexImplication)
        → All (IsImplication index n) given
        → Returns
            (extend index search fuel (call_reduce_delta tool pid index n) n given s)
            λ r. All (IsImplication index n) r.0 × Covers index n (max_len n) (given ++ r.0)
    extend-call_reduce_delta given given_ok =
        extend-Covers index n search correct fuel pos_n enough given given_ok
          (call_reduce_delta tool pid index n)
          (λ xs h. call_reduce_delta-Implies given xs given_ok h) s
