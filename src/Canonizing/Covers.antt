-- ===== src/Canonizing/Covers.antt =====
-- `compute` and `extend` of core/CanonizingLexImplicationsAlg.cc: the set that they return.
use phd_thesis_src.Prelude.{
  ℕ, zero, suc, ◌+◌, ◌-◌, ◌*◌, ◌%◌, ◌^◌, ◌<◌, ◌≤◌, ◌==◌, ◌≡◌, refl, sym, subst, Bool, true, false,
  ◌||◌, List, [], ◌++◌, arith, All, All-append, All-split, length, Result, ok, Returns, Bool-cases,
  inl, inr, if◌then◌else◌,
}
use phd_thesis_src.Sat.Semantics.{Search, IsCorrect}
use phd_thesis_src.Order.{Graph, IsGraph}
use phd_thesis_src.Matrix.Upper.{length-upper_cells, length-lower_cells}
use phd_thesis_src.Constraints.{Solver}
use phd_thesis_src.Canonizing.{
  CanonicalIndexing, upper_triangle_rows, upper_triangle_cols, LexImplication, run_rounds, max_len,
  extend, compute,
}
use phd_thesis_src.Canonizing.Impose.{cells_of, Meets}
use phd_thesis_src.Canonizing.Start.{IsImplication, MeetsAll, MeetsImplication}
use phd_thesis_src.Canonizing.Done.{IsPermutation}
use phd_thesis_src.Canonizing.Rounds.{RoundDone, run_round-RoundDone}

pub pairs : (n : ℕ) → n * (n - 1) + n ≡ n * n
pairs zero = omega arith
pairs (suc n) = let e : suc n - 1 ≡ n = omega arith in rw e (grind arith)

pub max_len-lt : (index : CanonicalIndexing) (n : ℕ) → max_len n ≤ length (cells_of index n)
max_len-lt upper_triangle_rows n = omega (arith, pairs n, length-upper_cells n 0 n (omega arith))
max_len-lt upper_triangle_cols n =
    let zero_plus : 0 + n ≡ n = omega arith in
    let twice : 2 * length (cells_of upper_triangle_cols n) + n ≡ n * n =
      grind (arith, length-lower_cells 0 n, zero_plus) in
    omega (arith, pairs n, twice)

module _ (index : CanonicalIndexing) (n : ℕ) where
  -- Every graph that meets the set meets all implications of the lengths 1 to m.
  abbrev pub Covers : ℕ → List LexImplication → Type 0
  Covers m xs =
      (e : Graph) (j : ℕ) (perm : List ℕ)
      → IsGraph n e
      → MeetsAll index n xs e
      → j < m
      → IsPermutation n perm
      → Meets index n j perm e

  -- The implications of the second set and the given set imply those of the first one.
  abbrev pub Implies : List LexImplication → List LexImplication → List LexImplication → Type 0
  Implies given ys xs =
      (e : Graph)
      → IsGraph n e
      → MeetsAll index n given e
      → MeetsAll index n ys e
      → MeetsAll index n xs e

  -- What is expected of the reducer: it returns implications from which, with the given set, those
  -- that it was called with follow.
  abbrev pub IsReducer :
      List LexImplication → (List LexImplication → Result (List LexImplication)) → Type 0
  IsReducer given reduce =
      (xs : List LexImplication)
      → All (IsImplication index n) xs
      → Returns (reduce xs) λ ys. All (IsImplication index n) ys × Implies given ys xs

  module _ (search : Search) (correct : IsCorrect search) (fuel : ℕ) (pos_n : 0 < n)
      (enough : n ^ n < fuel) (given : List LexImplication)
      (given_ok : All (IsImplication index n) given)
      (reduce : List LexImplication → Result (List LexImplication))
      (reducer : IsReducer given reduce) where
    maybe_reduce :
        (b : Bool) (xs : List LexImplication)
        → All (IsImplication index n) xs
        → Returns
            (if b then reduce xs else ok xs)
            λ ys. All (IsImplication index n) ys × Implies given ys xs
    maybe_reduce true xs h = reducer xs h
    maybe_reduce false xs h = (xs, refl, (h, λ e g m m'. m'))

    round-Covers :
        (m : ℕ) (delta : List LexImplication) (q : List LexImplication × Solver)
        → RoundDone index n m given delta q
        → Covers m (given ++ delta)
        → Covers (suc m) (given ++ q.0)
    round-Covers m delta q done covers e j perm graph meets lt p =
        let (m_given, m_q) = All-split (MeetsImplication index n e) given q.0 meets in
        let (m_delta, m_new) =
          All-split (MeetsImplication index n e) delta done.new
            (subst (λ xs. MeetsAll index n xs e) done.added m_q) in
        let m_before = All-append (MeetsImplication index n e) given delta m_given m_delta in
        elim (Bool-cases (j == m)) [
          | inl same ↦
              let at : m ≡ j = ground arith in
              subst (λ i. Meets index n i perm e) at (done.meets e perm graph m_before m_new p)
          | inr other ↦ covers e j perm graph m_before (ground arith) p
        ]

    -- From length m + 1 on.
    run_rounds-Covers :
        (m k : ℕ) (delta : List LexImplication) (s : Solver)
        → m + k ≤ length (cells_of index n)
        → All (IsImplication index n) delta
        → Covers m (given ++ delta)
        → Returns
            (run_rounds index search fuel reduce n (suc m) k given delta s)
            λ r. All (IsImplication index n) r.0 × Covers (m + k) (given ++ r.0)
    unfolding run_rounds
    run_rounds-Covers m zero delta s lt h covers =
        let e : m + 0 ≡ m = omega arith in
        ((delta, s), refl, (h, subst (λ i. Covers i (given ++ delta)) (sym e) covers))
    run_rounds-Covers m (suc k) delta s lt h covers =
        let (q, run, done) =
          run_round-RoundDone index n search correct fuel m given delta s pos_n (omega arith)
            (All-append (IsImplication index n) given delta given_ok h) enough in
        let q_ok =
          subst (All (IsImplication index n)) (sym done.added)
            (All-append (IsImplication index n) delta done.new h done.implications) in
        let (ys, run', (ys_ok, implies)) =
          maybe_reduce (suc m % 5 == 0 || suc m == max_len n) q.0 q_ok in
        let next =
          λ (e : Graph) (j : ℕ) (perm : List ℕ) (graph : IsGraph n e)
              (meets : MeetsAll index n (given ++ ys) e) (l : j < suc m) (p : IsPermutation n perm).
            let (m_given, m_ys) = All-split (MeetsImplication index n e) given ys meets in
            round-Covers m delta q done covers e j perm graph
              (All-append (MeetsImplication index n e) given q.0 m_given
                (implies e graph m_given m_ys))
              l p in
        let (r, run'', (r_ok, all)) = run_rounds-Covers (suc m) k ys q.1 (omega arith) ys_ok next in
        let e : suc m + k ≡ m + suc k = omega arith in
        (r, rw run (rw run' run''), (r_ok, subst (λ i. Covers i (given ++ r.0)) e all))

    -- All rounds.
    run_rounds-Covers_whole :
        (s : Solver)
        → Returns
            (run_rounds index search fuel reduce n 1 (max_len n) given [] s)
            λ r. All (IsImplication index n) r.0 × Covers (max_len n) (given ++ r.0)
    run_rounds-Covers_whole s =
        let (r, run, (r_ok, covers)) =
          run_rounds-Covers 0 (max_len n) [] s (omega (arith, max_len-lt index n)) tt
            (λ e j perm graph meets lt p. absurd (omega arith)) in
        let e : 0 + max_len n ≡ max_len n = omega arith in
        (r, run, (r_ok, subst (λ i. Covers i (given ++ r.0)) e covers))

  module _ (search : Search) (correct : IsCorrect search) (fuel : ℕ) (pos_n : 0 < n)
      (enough : n ^ n < fuel) where
    -- With a correct search, n > 0, fuel above n ^ n, a given set of implications for n vertices and
    -- a reducer that returns implications from which, with the given set, those it was called with
    -- follow, `extend` returns on any solver. Every graph on n vertices that meets the given set and
    -- the one returned meets the implications of all lengths up to the number of pairs less one, for
    -- every permutation.
    pub extend-Covers :
        (given : List LexImplication)
        → All (IsImplication index n) given
        → (reduce_delta : List LexImplication → List LexImplication → Result (List LexImplication))
        → IsReducer given (reduce_delta given)
        → (s : Solver)
        → Returns
            (extend index search fuel reduce_delta n given s)
            λ r. All (IsImplication index n) r.0 × Covers (max_len n) (given ++ r.0)
    unfolding extend
    extend-Covers given given_ok reduce_delta reducer s =
        run_rounds-Covers_whole search correct fuel pos_n enough given given_ok (reduce_delta given)
          reducer s

    -- With a correct search, n > 0, fuel above n ^ n and a reducer that returns implications from
    -- which those it was called with follow, `compute` returns on any solver. Every graph on n
    -- vertices that meets the set returned meets the implications of all lengths up to the number of
    -- pairs less one, for every permutation.
    pub compute-Covers :
        (reduce : List LexImplication → Result (List LexImplication))
        → IsReducer [] reduce
        → (s : Solver)
        → Returns
            (compute index search fuel reduce n s)
            λ r. All (IsImplication index n) r.0 × Covers (max_len n) r.0
    unfolding compute
    compute-Covers reduce reducer s =
        run_rounds-Covers_whole search correct fuel pos_n enough [] tt reduce reducer s
