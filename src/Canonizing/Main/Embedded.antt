-- ===== src/Canonizing/Main/Embedded.antt =====
-- The runs of core/Main.cc with a subgraph and the reducer of the program: `runIncrementalSubgraph`
-- and `main`.
use phd_thesis_src.Prelude.{
  ℕ, zero, suc, ◌+◌, ◌-◌, ◌*◌, ◌==◌, ◌^◌, ◌<◌, ◌≤◌, ◌≡◌, refl, sym, ap, ◌∙◌, subst, false, List, [],
  ◌∷◌, ◌++◌, arith, All, All-append, All-mono, length, Option, some, Result, Returns,
}
use phd_thesis_src.Text.{Bytes}
use phd_thesis_src.Sat.Semantics.{Search, IsCorrect}
use phd_thesis_src.Constraints.{new_solver}
use phd_thesis_src.Canonizing.{CanonicalIndexing, LexImplication, max_len}
use phd_thesis_src.Canonizing.Start.{IsImplication}
use phd_thesis_src.Canonizing.Subgraph.{int_sqrt, extend_subgraph}
use phd_thesis_src.Canonizing.Subgraph.Embed.{int_sqrt-square}
use phd_thesis_src.Canonizing.Subgraph.Complete.{
  CoversOn, IsCanonizingOn, extend_subgraph-CoversOn, CoversOn-IsCanonizingOn,
}
use phd_thesis_src.Canonizing.Main.{
  Flag, Options, parse_input, initial_options, incremental_subgraph_from, run_incremental_subgraph,
  main,
}
use phd_thesis_src.Canonizing.Main.Incremental.{IsImplication-suc}
use phd_thesis_src.Reducer.Texts.{Tool}
use phd_thesis_src.Reducer.{call_reduce, call_reduce_delta_subgraph}
use phd_thesis_src.Reducer.Kept.{IsSound}
use phd_thesis_src.Reducer.Delta.{call_reduce_delta_subgraph-ImpliesOn}

-- What `main` ends with on a subgraph: the exit code 0, and a set that is canonizing for the graphs
-- that contain the subgraph.
pub record AnswerOn (o : Options) (r : ℕ × Option (List LexImplication)) : Type 0 where
  pub set : List LexImplication
  pub result : r ≡ (0, some set)
  pub canonizing : IsCanonizingOn o.index o.subgraph o.n set

nonempty :
    (text : Bytes) (side : ℕ)
    → length text ≡ side * side
    → 0 < side
    → (c : ℕ) × (cs : Bytes) × (text ≡ c ∷ cs)
nonempty [] zero square pos_side = absurd (omega arith)
nonempty [] (suc side) square pos_side = absurd (omega arith)
nonempty (c ∷ cs) side square pos_side = (c, cs, refl)

module _ (tool : Tool) (sound : IsSound tool) (pid : ℕ) (search : Search)
    (correct : IsCorrect search) (fuel : ℕ) where
  module _ (index : CanonicalIndexing) (text : Bytes) (side : ℕ)
      (square : length text ≡ side * side) where
    abbrev reduce : ℕ → List LexImplication → List LexImplication → Result (List LexImplication)
    reduce = call_reduce_delta_subgraph tool pid index text

    -- The set that is built for n vertices.
    abbrev IsCanonicalOn : ℕ → List LexImplication → Type 0
    IsCanonicalOn n xs = All (IsImplication index n) xs × CoversOn index text n (max_len n) xs

    extend-set :
        (n : ℕ) (canset : List LexImplication)
        → side ≤ suc n
        → suc n ^ suc n < fuel
        → All (IsImplication index (suc n)) canset
        → Returns
            (extend_subgraph index text search fuel (reduce (suc n)) (suc n) canset new_solver)
            λ r. IsCanonicalOn (suc n) (canset ++ r.0)
    extend-set n canset le enough h =
        let (r, run, (r_ok, covers)) =
          extend_subgraph-CoversOn index text (suc n) side square le search correct fuel
            (omega arith) enough canset h (reduce (suc n))
            (λ xs h'.
              call_reduce_delta_subgraph-ImpliesOn tool sound pid (suc n) index side text square le
                canset xs h h')
            new_solver in
        (r, run, (All-append (IsImplication index (suc n)) canset r.0 h r_ok, covers))

    incremental_subgraph_from-IsCanonicalOn :
        (n k : ℕ) (canset : List LexImplication)
        → side ≤ suc n
        → ((m : ℕ) → m ≤ n + suc k → m ^ m < fuel)
        → All (IsImplication index (suc n)) canset
        → Returns
            (incremental_subgraph_from search fuel reduce index text (suc n) (suc k) canset)
            (IsCanonicalOn (n + suc k))
    unfolding incremental_subgraph_from
    incremental_subgraph_from-IsCanonicalOn n zero canset le enough h =
        let (r, run, done) = extend-set n canset le (enough (suc n) (omega arith)) h in
        let e : suc n ≡ n + 1 = omega arith in
        (canset ++ r.0, rw run refl, subst (λ m. IsCanonicalOn m (canset ++ r.0)) e done)
    incremental_subgraph_from-IsCanonicalOn n (suc k) canset le enough h =
        let (r, run, done) = extend-set n canset le (enough (suc n) (omega arith)) h in
        let next = All-mono _ _ (IsImplication-suc index (suc n)) (canset ++ r.0) done.0 in
        let (xs, run', last) =
          incremental_subgraph_from-IsCanonicalOn (suc n) k (canset ++ r.0) (omega arith)
            (λ m l. enough m (omega arith)) next in
        let e : suc n + suc k ≡ n + suc (suc k) = omega arith in
        (xs, rw run run', subst (λ m. IsCanonicalOn m xs) e last)

    -- With a sound external program, a correct search, a subgraph text of k rows of length k for k
    -- below n, and fuel above m ^ m for all m up to n, `runIncrementalSubgraph` with the reducer of
    -- the program returns a set. A graph on n vertices that contains the subgraph meets the set
    -- exactly when its string is the least among those of the graphs that are isomorphic to it.
    pub run_incremental_subgraph-IsCanonizingOn :
        (n : ℕ)
        → side < n
        → ((m : ℕ) → m ≤ n → m ^ m < fuel)
        → Returns
            (run_incremental_subgraph search fuel reduce n index text)
            (IsCanonizingOn index text n)
    unfolding run_incremental_subgraph
    run_incremental_subgraph-IsCanonizingOn n lt enough =
        let k = n - suc side in
        let root : int_sqrt (length text) ≡ side = ap int_sqrt square ∙ int_sqrt-square side in
        let first : int_sqrt (length text) + 1 ≡ suc side = omega (arith, root) in
        let rounds : suc n - suc side ≡ suc k = omega arith in
        let last : side + suc k ≡ n = omega arith in
        let (xs, run, done) =
          incremental_subgraph_from-IsCanonicalOn side k [] (omega arith)
            (λ m le. enough m (omega arith)) tt in
        let (xs_ok, covers) = subst (λ m. IsCanonicalOn m xs) last done in
        (
          xs,
          ap (λ i. incremental_subgraph_from search fuel reduce index text i (suc n - i) []) first
              ∙ ap (λ j. incremental_subgraph_from search fuel reduce index text (suc side) j [])
                  rounds
              ∙ run,
          CoversOn-IsCanonizingOn index text n xs xs_ok covers,
        )

  -- With a sound external program and a correct search, on options that are accepted, with a
  -- subgraph text of k rows of length k, k positive and below the number n of vertices, and fuel
  -- above m ^ m for all m up to n, `main` with the reducer of the program ends with the exit code 0
  -- and a set. A graph on n vertices that contains the subgraph meets it exactly when its string is
  -- the least among those of the graphs that are isomorphic to it.
  pub main-AnswerOn :
      (flags : List Flag) (o : Options) (k : ℕ)
      → parse_input initial_options flags ≡ some o
      → length o.subgraph ≡ k * k
      → 0 < k
      → k < o.n
      → ((m : ℕ) → m ≤ o.n → m ^ m < fuel)
      → Returns
          (main search fuel
            (call_reduce_delta_subgraph tool pid o.index o.subgraph)
            (call_reduce tool pid o.index)
            flags)
          (AnswerOn o)
  unfolding main
  main-AnswerOn flags o k parsed square pos_k lt enough =
      let some_n : (o.n == 0) ≡ false = ground arith in
      let (c, cs, e) = nonempty o.subgraph k square pos_k in
      let (xs, run, least) =
        run_incremental_subgraph-IsCanonizingOn o.index (c ∷ cs) k (ap length (sym e) ∙ square) o.n
          lt enough in
      (
        (0, some xs),
        rw (parsed, main) (rw some_n (rw e (rw run refl))),
        record {
          set = xs;
          result = refl;
          canonizing = subst (λ text. IsCanonizingOn o.index text o.n xs) (sym e) least;
        },
      )
