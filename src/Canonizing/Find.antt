-- ===== src/Canonizing/Find.antt =====
-- The search loop of a round of core/CanonizingLexImplicationsAlg.cc.
use phd_thesis_src.Prelude.{
  append_assoc, ℕ, zero, suc, ◌-◌, ◌<◌, ◌≤◌, ◌≡◌, refl, sym, ap, ◌∙◌, subst, true, false, not, List,
  [], ◌∷◌, ◌++◌, arith, All, All-append, All-split, All-mono, length, ok, ◌>>=◌, Returns,
  Bool-cases, inl, inr,
}
use phd_thesis_src.Sat.{Lbool}
use phd_thesis_src.Sat.Semantics.{Valuation, Search, IsCorrect, truth}
use phd_thesis_src.Order.{Graph, implied_at, less_at, implied_at-less_at}
use phd_thesis_src.Matrix.Strings.{permuted}
use phd_thesis_src.Constraints.{Solver}
use phd_thesis_src.Constraints.Semantics.{IsRef-grow, IsRef-mono, vars, holds}
use phd_thesis_src.Constraints.Encodes.{Encodes, Encodes_then, Encodes_map}
use phd_thesis_src.Constraints.Ints.Rows.{rows, AreVars-kept}
use phd_thesis_src.Constraints.Answers.{with_model, decode_int_array}
use phd_thesis_src.Constraints.Answers.Decode.{decode_int_array-decoded}
use phd_thesis_src.Constraints.Answers.Solve.{Found, solve_lem, with_model-Encodes}
use phd_thesis_src.Constraints.Graphs.Pairs.{table}
use phd_thesis_src.Canonizing.{
  CanonicalIndexing, LexImplication, Round, impose, indices, find_implications,
}
use phd_thesis_src.Canonizing.SetUp.{SetUpResult}
use phd_thesis_src.Canonizing.Impose.{cells_of, string, AreRefs, Meets, impose-Encodes}
use phd_thesis_src.Canonizing.Start.{IsImplication, MeetsAll, RoundModel, Meets-congr}
use phd_thesis_src.Canonizing.Candidates.{
  same, same_sound, has, without, has-without, length-without_lt,
}
use phd_thesis_src.Canonizing.Decoded.{
  indices-pos, OneHot-ones, perm_of, length-perm_of, perm_of-Maps, perm_of-IsInjective,
  second-permuted,
}
use phd_thesis_src.Canonizing.Done.{string_congr}

module _ (index : CanonicalIndexing) (n : ℕ) (u : Round) (a : SetUpResult n u) (k : ℕ)
    (k_lt : k < length (cells_of index n)) (Before : Graph → Type 0) where
  -- The models of the round with the implications that were found.
  abbrev pub Model : List LexImplication → Valuation → Type 0
  Model new v = RoundModel index n k Before a.x1 a.x2 v × MeetsAll index n new (table v a.x1)

  -- Where the loop stands: every permutation that can be decoded is one of `left`.
  pub record State (s : Solver) (new : List LexImplication) (left : List (List ℕ)) : Type 0 where
    pub step : Encodes u.solver s (Model new) (Model new)
    pub implications : All (IsImplication index n) new
    pub lengths : All (λ x. x.length ≡ suc k) new
    pub candidates : (v : Valuation) → holds v s ≡ true → has (perm_of a v) left ≡ true

  abbrev implication : List ℕ → LexImplication
  implication perm = record { perm = perm; length = suc k }

  length_of : suc k - 1 ≡ k
  length_of = omega arith

  refs_at : (s : Solver) → vars u.solver ≤ vars s → AreRefs n s a.x1
  refs_at s grows i j p q = IsRef-mono (a.x1 i j) grows (a.given.cells1 i j p q).ref

  -- A model that meets the implication for a permutation has another permutation.
  other_perm :
      (w : Valuation) (perm : List ℕ) (new : List LexImplication)
      → holds w u.solver ≡ true
      → Model new w
      → Meets index n k perm (table w a.x1)
      → same (perm_of a w) perm ≡ false
  other_perm w perm new held m meets = elim (Bool-cases (same (perm_of a w) perm)) [
    | inr e ↦ e
    | inl e ↦
        let eq : perm_of a w ≡ perm = same_sound (perm_of a w) perm e in
        let e1 = table w a.x1 in
        let second : string index n (table w a.x2) ≡ string index n (permuted perm e1) =
          string_congr index n (table w a.x2) (permuted (perm_of a w) e1) (second-permuted a w held)
          ∙ ap (λ q. string index n (permuted q e1)) eq in
        let less : less_at k (string index n (permuted perm e1)) (string index n e1) ≡ true =
          ap (λ b. less_at k b (string index n e1)) (sym second) ∙ m.0.0 in
        let clash : implied_at k (string index n e1) (string index n (permuted perm e1)) ≡ false =
          implied_at-less_at k (string index n e1) (string index n (permuted perm e1))
          ∙ ap not less in
        absurd (cc (clash, meets))
  ]

  module _ (s : Solver) (new : List LexImplication) (left : List (List ℕ)) (st : State s new left)
      (m : List Lbool) where
    -- The solver with one more implication.
    extended :
        (perm : List ℕ) (s'' : Solver)
        → All (IsImplication index n) (implication perm ∷ [])
        → has perm left ≡ true
        → Encodes
            (with_model m s)
            s''
            (λ v. Meets index n k perm (table v a.x1))
            (λ v. Meets index n k perm (table v a.x1))
        → State s'' (new ++ (implication perm ∷ [])) (without perm left)
    extended perm s'' ok_imp found imp =
        let kept = with_model-Encodes m s st.step.valid in
        let M = λ (v : Valuation). Meets index n k perm (table v a.x1) in
        let one =
          Encodes_then M kept imp (λ v p. tt)
            (λ v w p agree q.
              Meets-congr index n s a.x1 k perm v w (refs_at s st.step.grows) ok_imp.0.0 agree p) in
        let more = new ++ (implication perm ∷ []) in
        record {
          step =
              Encodes_map
                (Encodes_then (Model more) st.step one
                  (λ v p. (p.0, (All-split _ new (implication perm ∷ []) p.1).0))
                  (λ v w p agree q.
                    Meets-congr index n u.solver a.x1 k perm v w (refs_at u.solver (omega arith))
                      ok_imp.0.0 agree
                      (subst (λ j. Meets index n j perm (table v a.x1)) length_of
                        (All-split _ new (implication perm ∷ []) p.1).1.0)))
                (λ v p. p)
                (λ v q. (
                  q.0.0,
                  All-append _ new (implication perm ∷ []) q.0.1
                      (subst (λ j. Meets index n j perm (table v a.x1)) (sym length_of) q.1.1, tt),
                ));
          implications = All-append _ new (implication perm ∷ []) st.implications ok_imp;
          lengths = All-append _ new (implication perm ∷ []) st.lengths (refl, tt);
          candidates = λ w held.
              let (held', meets) = imp.sound w held in
              let held_s = (kept.sound w held').0 in
              let (held_u, model) = st.step.sound w held_s in
              has-without (perm_of a w) perm left (st.candidates w held_s)
                (other_perm w perm new held_u model meets);
        }

  -- What the loop ends with: the implications that it added, and a solver with no model.
  pub record Finished (delta : List LexImplication) (r : List LexImplication × Solver)
      : Type 0 where
    pub new : List LexImplication
    pub added : r.0 ≡ delta ++ new
    pub implications : All (IsImplication index n) new
    pub lengths : All (λ x. x.length ≡ suc k) new
    pub step : Encodes u.solver r.1 (Model new) (Model new)
    pub none : (v : Valuation) → holds v r.1 ≡ false

  module _ (search : Search) (correct : IsCorrect search) where
    -- The permutation of the model that `solve` found is decoded and its implication is posted.
    module _ (s : Solver) (new : List LexImplication) (left : List (List ℕ)) (st : State s new left)
        (f : Found search s) where
      abbrev found_perm : List ℕ
      found_perm = perm_of a (truth f.model)

      in_round : holds (truth f.model) u.solver ≡ true
      in_round = (st.step.sound (truth f.model) f.held).0

      decode-found : (decode_int_array u.perm (with_model f.model s) >>= indices) ≡ ok found_perm
      decode-found =
          rw
            (decode_int_array-decoded (with_model f.model s) a.bs u.perm f.has_model
              (AreVars-kept u.solver.ints s.ints a.bs u.perm st.step.ints_kept a.are_vars)
              (All-mono _ _ (λ b. IsRef-grow b st.step.grows) a.bs a.bool_refs)
              (OneHot-ones n (rows (truth f.model) a.bs) (a.matrix (truth f.model) in_round).0.1))
            (indices-pos found_perm)

      found-IsImplication : All (IsImplication index n) (implication found_perm ∷ [])
      found-IsImplication = (
        (
          perm_of-Maps a (truth f.model) in_round,
          omega arith,
          omega arith,
          omega (arith, length-perm_of a (truth f.model) in_round),
          perm_of-IsInjective a (truth f.model) in_round,
        ),
        tt,
      )

      impose-found :
          Returns
            (impose index u.g1 (string index n a.x1) found_perm (suc k) (with_model f.model s))
            λ s''. State s'' (new ++ (implication found_perm ∷ [])) (without found_perm left)
      impose-found =
          let kept = with_model-Encodes f.model s st.step.valid in
          let (s'', run, imp) =
            impose-Encodes index n u.g1 a.x1 found_perm k (with_model f.model s) kept.valid a.table1
              (refs_at s st.step.grows) found-IsImplication.0.0 k_lt in
          (
            s'',
            run,
            extended s new left st f.model found_perm s'' found-IsImplication
                (st.candidates (truth f.model) f.held) imp,
          )

    pub find_implications-Finished :
        (fuel : ℕ) (s : Solver) (new : List LexImplication) (left : List (List ℕ))
        (delta : List LexImplication)
        → State s new left
        → length left < fuel
        → Returns
            (find_implications index search fuel (suc k) u (string index n a.x1) (delta ++ new) s)
            (Finished delta)
    unfolding find_implications
    find_implications-Finished zero s new left delta st lt = absurd (omega arith)
    find_implications-Finished (suc fuel) s new left delta st lt =
        elim (solve_lem search s correct st.step.valid) [
          | inr none ↦ (
            (delta ++ new, with_model [] s),
            rw (none.answer, find_implications) (rw (none.answer) refl),
            record {
              new = new;
              added = refl;
              implications = st.implications;
              lengths = st.lengths;
              step =
                  Encodes_map
                    (Encodes_then (Model new) st.step (with_model-Encodes [] s st.step.valid)
                      (λ v p. p) (λ v w p g q. tt))
                    (λ v p. p) (λ v q. q.0);
              none = λ v. elim (Bool-cases (holds v (with_model [] s))) [
                | inr e ↦ e
                | inl e ↦
                    absurd (cc (none.none v, ((with_model-Encodes [] s st.step.valid).sound v e).0))
              ];
            },
          )
          | inl f ↦
              let perm = found_perm s new left st f in
              let (s'', run, st') = impose-found s new left st f in
              let shorter = length-without_lt perm left (st.candidates (truth f.model) f.held) in
              let (r, run', done) =
                find_implications-Finished fuel s'' (new ++ (implication perm ∷ []))
                  (without perm left) delta st' (omega (arith, shorter)) in
              (
                r,
                rw (f.answer, find_implications)
                    (rw (f.answer) (
                      rw (decode-found s new left st f)
                        (rw run (rw (append_assoc delta new (implication perm ∷ [])) run')))),
                done,
              )
        ]
