-- ===== src/Canonizing/Rounds.antt =====
-- The rounds of core/CanonizingLexImplicationsAlg.cc: what a set that they end with implies.
use phd_thesis_src.Prelude.{
  ℕ, suc, ◌^◌, ◌<◌, ◌≡◌, refl, ap, subst, true, List, [], ◌∷◌, ◌++◌, arith, All, length, ok,
  Returns,
}
use phd_thesis_src.Sat.Semantics.{Search, IsCorrect}
use phd_thesis_src.Order.{Graph, IsGraph}
use phd_thesis_src.Constraints.{Solver}
use phd_thesis_src.Constraints.Encodes.{Encodes_map}
use phd_thesis_src.Canonizing.{CanonicalIndexing, LexImplication, find_implications, run_round}
use phd_thesis_src.Canonizing.Impose.{cells_of, string, Meets}
use phd_thesis_src.Canonizing.Start.{IsImplication, MeetsAll, start_round-StartResult}
use phd_thesis_src.Canonizing.Candidates.{has, all_lists, has-all_lists, length-all_lists}
use phd_thesis_src.Canonizing.Decoded.{perm_of, perm_of-Maps, length-perm_of}
use phd_thesis_src.Canonizing.Done.{IsPermutation, MeetsAll-same, no_model-Meets}
use phd_thesis_src.Canonizing.Find.{State, find_implications-Finished}

append_nil : (xs : List LexImplication) → xs ++ [] ≡ xs
append_nil [] = refl
append_nil (x ∷ xs) = ap (λ t. x ∷ t) (append_nil xs)

module _ (index : CanonicalIndexing) (n : ℕ) where
  -- What a round for the length k + 1 adds to `delta`: implications of that length, such that every
  -- graph that meets them and the sets before meets the implication of that length for every
  -- permutation.
  pub record RoundDone (k : ℕ) (given delta : List LexImplication)
      (r : List LexImplication × Solver) : Type 0 where
    pub new : List LexImplication
    pub added : r.0 ≡ delta ++ new
    pub implications : All (IsImplication index n) new
    pub lengths : All (λ x. x.length ≡ suc k) new
    pub meets :
        (e : Graph) (perm : List ℕ)
        → IsGraph n e
        → MeetsAll index n (given ++ delta) e
        → MeetsAll index n new e
        → IsPermutation n perm
        → Meets index n k perm e

  module _ (search : Search) (correct : IsCorrect search) where
    -- With a correct search, n > 0, a length from 1 to that of the strings, sets of implications for
    -- n vertices and fuel above n ^ n a round ends, on any solver. It adds implications of that
    -- length such that every graph on n vertices that meets all the sets meets the implication of
    -- that length for every permutation.
    pub run_round-RoundDone :
        (fuel k : ℕ) (given delta : List LexImplication) (s : Solver)
        → 0 < n
        → k < length (cells_of index n)
        → All (IsImplication index n) (given ++ delta)
        → n ^ n < fuel
        → Returns (run_round index search fuel n (suc k) given delta s) (RoundDone k given delta)
    unfolding run_round
    run_round-RoundDone fuel k given delta s pos_n lt r enough =
        let before = given ++ delta in
        let (q, run, start) = start_round-StartResult index n k before s pos_n lt r in
        let a = start.set_up in
        let state : State index n q.0 a k lt (MeetsAll index n before) q.2 [] (all_lists n n) =
          record {
            step = Encodes_map start.step (λ v p. p.0) (λ v m. (m, tt));
            implications = tt;
            lengths = tt;
            candidates = λ v held.
                let held_u = (start.step.sound v held).0 in
                subst (λ m. has (perm_of a v) (all_lists n m) ≡ true) (length-perm_of a v held_u)
                  (has-all_lists n (perm_of a v) (perm_of-Maps a v held_u));
          } in
        let few : length (all_lists n n) < fuel = omega (arith, length-all_lists n n) in
        let (res, run', done) =
          find_implications-Finished index n q.0 a k lt (MeetsAll index n before) search correct
            fuel q.2 [] (all_lists n n) delta state few in
        (
          res,
          rw run (
              rw (start.string1) (
                subst
                  (λ d.
                    find_implications index search fuel (suc k) q.0 (string index n a.x1) d q.2
                    ≡ ok res)
                  (append_nil delta) run')),
          record {
            new = done.new;
            added = done.added;
            implications = done.implications;
            lengths = done.lengths;
            meets = λ e perm graph m_before m_new p.
                no_model-Meets index n a k (MeetsAll index n before) done.new res.1 done.step
                  done.none (λ e f same m. MeetsAll-same index n e f before same r m)
                  done.implications e perm graph m_before m_new p;
          },
        )
