-- ===== src/Canonizing/Subgraph/Complete.antt =====
-- `extend` with a subgraph: the set that it returns, for graphs that contain the subgraph.
use phd_thesis_src.Prelude.{
  ℕ, zero, suc, ◌+◌, ◌*◌, ◌%◌, ◌^◌, ◌<◌, ◌≤◌, ◌==◌, ◌≡◌, ◌↔◌, refl, sym, subst, Bool, true, false,
  ◌||◌, List, [], ◌++◌, arith, All, All-append, All-split, length, Result, ok, Returns, Bool-cases,
  inl, inr, if◌then◌else◌,
}
use phd_thesis_src.Sat.Semantics.{Search, IsCorrect}
use phd_thesis_src.Order.{Graph, IsGraph}
use phd_thesis_src.Constraints.{Solver}
use phd_thesis_src.Canonizing.{CanonicalIndexing, LexImplication, max_len}
use phd_thesis_src.Canonizing.Impose.{cells_of, Meets}
use phd_thesis_src.Canonizing.Start.{IsImplication, MeetsAll, MeetsImplication}
use phd_thesis_src.Canonizing.Done.{IsPermutation}
use phd_thesis_src.Canonizing.Covers.{max_len-lt}
use phd_thesis_src.Canonizing.Least.{IsLeast, Meets-IsLeast, IsLeast-MeetsAll}
use phd_thesis_src.Canonizing.Subgraph.{run_subgraph_rounds, extend_subgraph}
use phd_thesis_src.Canonizing.Subgraph.Embed.{Contains}
use phd_thesis_src.Canonizing.Subgraph.Rounds.{RoundDone, find_in_round}

module _ (index : CanonicalIndexing) (text : List ℕ) (n : ℕ) where
  -- Every graph that contains the subgraph and meets the set meets all implications of the lengths
  -- 1 to m.
  abbrev pub CoversOn : ℕ → List LexImplication → Type 0
  CoversOn m xs =
      (e : Graph) (j : ℕ) (perm : List ℕ)
      → IsGraph n e
      → Contains text e
      → MeetsAll index n xs e
      → j < m
      → IsPermutation n perm
      → Meets index n j perm e

  -- On graphs that contain the subgraph the second set and the given set imply the first one.
  abbrev pub ImpliesOn : List LexImplication → List LexImplication → List LexImplication → Type 0
  ImpliesOn given ys xs =
      (e : Graph)
      → IsGraph n e
      → Contains text e
      → MeetsAll index n given e
      → MeetsAll index n ys e
      → MeetsAll index n xs e

  -- What is expected of the reducer for the subgraph.
  abbrev pub IsReducerOn :
      List LexImplication → (List LexImplication → Result (List LexImplication)) → Type 0
  IsReducerOn given reduce =
      (xs : List LexImplication)
      → All (IsImplication index n) xs
      → Returns (reduce xs) λ ys. All (IsImplication index n) ys × ImpliesOn given ys xs

  -- A graph that contains the subgraph meets the set exactly when it is the least of its class.
  abbrev pub IsCanonizingOn : List LexImplication → Type 0
  IsCanonizingOn xs =
      (e : Graph) → IsGraph n e → Contains text e → MeetsAll index n xs e ↔ IsLeast index n e

  module _ (side : ℕ) (square : length text ≡ side * side) (le : side ≤ n) (search : Search)
      (correct : IsCorrect search) (fuel : ℕ) (pos_n : 0 < n) (enough : n ^ n < fuel)
      (given : List LexImplication) (given_ok : All (IsImplication index n) given)
      (reduce : List LexImplication → Result (List LexImplication))
      (reducer : IsReducerOn given reduce) where
    maybe_reduce :
        (b : Bool) (xs : List LexImplication)
        → All (IsImplication index n) xs
        → Returns
            (if b then reduce xs else ok xs)
            λ ys. All (IsImplication index n) ys × ImpliesOn given ys xs
    maybe_reduce true xs h = reducer xs h
    maybe_reduce false xs h = (xs, refl, (h, λ e g c m m'. m'))

    round-CoversOn :
        (m : ℕ) (delta : List LexImplication) (q : List LexImplication × Solver)
        → RoundDone index text n side square le m given delta q
        → CoversOn m (given ++ delta)
        → CoversOn (suc m) (given ++ q.0)
    round-CoversOn m delta q done covers e j perm graph has meets lt p =
        let (m_given, m_q) = All-split (MeetsImplication index n e) given q.0 meets in
        let (m_delta, m_new) =
          All-split (MeetsImplication index n e) delta done.new
            (subst (λ xs. MeetsAll index n xs e) done.added m_q) in
        let m_before = All-append (MeetsImplication index n e) given delta m_given m_delta in
        elim (Bool-cases (j == m)) [
          | inl same ↦
              let at : m ≡ j = ground arith in
              subst (λ i. Meets index n i perm e) at
                (done.meets e perm graph (has, m_before) m_new p)
          | inr other ↦ covers e j perm graph has m_before (ground arith) p
        ]

    reduced-CoversOn :
        (m : ℕ) (xs ys : List LexImplication)
        → ImpliesOn given ys xs
        → CoversOn m (given ++ xs)
        → CoversOn m (given ++ ys)
    reduced-CoversOn m xs ys implies covers e j perm graph has meets lt p =
        let (m_given, m_ys) = All-split (MeetsImplication index n e) given ys meets in
        covers e j perm graph has
          (All-append (MeetsImplication index n e) given xs m_given
            (implies e graph has m_given m_ys))
          lt p

    -- From length m + 1 on.
    run_subgraph_rounds-CoversOn :
        (m k : ℕ) (delta : List LexImplication) (s : Solver)
        → m + k ≤ length (cells_of index n)
        → All (IsImplication index n) delta
        → CoversOn m (given ++ delta)
        → Returns
            (run_subgraph_rounds index text search fuel reduce n (suc m) k given delta s)
            λ r. All (IsImplication index n) r.0 × CoversOn (m + k) (given ++ r.0)
    unfolding run_subgraph_rounds
    run_subgraph_rounds-CoversOn m zero delta s lt h covers =
        let e : m + 0 ≡ m = omega arith in
        ((delta, s), refl, (h, subst (λ i. CoversOn i (given ++ delta)) (sym e) covers))
    run_subgraph_rounds-CoversOn m (suc k) delta s lt h covers =
        let (u, start, (q, run, done)) =
          find_in_round index text n side square le search correct fuel m given delta s pos_n
            (omega arith) (All-append (IsImplication index n) given delta given_ok h) enough in
        let q_ok =
          subst (All (IsImplication index n)) (sym done.added)
            (All-append (IsImplication index n) delta done.new h done.implications) in
        let (ys, run', (ys_ok, implies)) =
          maybe_reduce (suc m % 5 == 0 || suc m == max_len n) q.0 q_ok in
        let next = reduced-CoversOn (suc m) q.0 ys implies (round-CoversOn m delta q done covers) in
        let (r, run'', (r_ok, all)) =
          run_subgraph_rounds-CoversOn (suc m) k ys q.1 (omega arith) ys_ok next in
        let e : suc m + k ≡ m + suc k = omega arith in
        (r, rw start (rw run (rw run' run'')), (r_ok, subst (λ i. CoversOn i (given ++ r.0)) e all))

    run-CoversOn :
        (s : Solver)
        → Returns
            (run_subgraph_rounds index text search fuel reduce n 1 (max_len n) given [] s)
            λ r. All (IsImplication index n) r.0 × CoversOn (max_len n) (given ++ r.0)
    run-CoversOn s =
        let (r, run, (r_ok, covers)) =
          run_subgraph_rounds-CoversOn 0 (max_len n) [] s (omega (arith, max_len-lt index n)) tt
            (λ e j perm graph has meets lt p. absurd (omega arith)) in
        let e : 0 + max_len n ≡ max_len n = omega arith in
        (r, run, (r_ok, subst (λ i. CoversOn i (given ++ r.0)) e covers))

  pub extend_subgraph-CoversOn :
      (side : ℕ)
      → length text ≡ side * side
      → side ≤ n
      → (search : Search) → IsCorrect search
      → (fuel : ℕ) → 0 < n
      → n ^ n < fuel
      → (given : List LexImplication) → All (IsImplication index n) given
      → (reduce_delta : List LexImplication → List LexImplication → Result (List LexImplication))
      → IsReducerOn given (reduce_delta given)
      → (s : Solver)
      → Returns
          (extend_subgraph index text search fuel reduce_delta n given s)
          λ r. All (IsImplication index n) r.0 × CoversOn (max_len n) (given ++ r.0)
  unfolding extend_subgraph
  extend_subgraph-CoversOn side square le search correct fuel pos_n enough given given_ok
        reduce_delta reducer s =
      run-CoversOn side square le search correct fuel pos_n enough given given_ok
        (reduce_delta given) reducer s

  pub CoversOn-IsCanonizingOn :
      (xs : List LexImplication)
      → All (IsImplication index n) xs
      → CoversOn (max_len n) xs
      → IsCanonizingOn xs
  CoversOn-IsCanonizingOn xs xs_ok covers e graph has = (
    λ meets. Meets-IsLeast index n e graph (λ j perm lt p. covers e j perm graph has meets lt p),
    λ least. IsLeast-MeetsAll index n e xs least xs_ok,
  )

  -- With a correct search, n > 0, fuel above n ^ n, a subgraph text of k rows of length k for k up
  -- to n, a given set of implications for n vertices, and a reducer that returns implications from
  -- which, with the given set and on graphs that contain the subgraph, those it was called with
  -- follow, `extend` with the subgraph returns on any solver. A graph on n vertices that contains
  -- the subgraph meets the given set and the one returned exactly when its string is the least among
  -- those of the graphs that are isomorphic to it.
  pub extend_subgraph-IsCanonizingOn :
      (k : ℕ)
      → length text ≡ k * k
      → k ≤ n
      → (search : Search) → IsCorrect search
      → (fuel : ℕ) → 0 < n
      → n ^ n < fuel
      → (given : List LexImplication) → All (IsImplication index n) given
      → (reduce_delta : List LexImplication → List LexImplication → Result (List LexImplication))
      → IsReducerOn given (reduce_delta given)
      → (s : Solver)
      → Returns
          (extend_subgraph index text search fuel reduce_delta n given s)
          λ r. IsCanonizingOn (given ++ r.0)
  extend_subgraph-IsCanonizingOn k square le search correct fuel pos_n enough given given_ok
        reduce_delta reducer s =
      let (r, run, (r_ok, covers)) =
        extend_subgraph-CoversOn k square le search correct fuel pos_n enough given given_ok
          reduce_delta reducer s in
      (
        r,
        run,
        CoversOn-IsCanonizingOn (given ++ r.0)
            (All-append (IsImplication index n) given r.0 given_ok r_ok) covers,
      )
