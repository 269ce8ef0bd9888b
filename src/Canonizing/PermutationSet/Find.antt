-- ===== src/Canonizing/PermutationSet/Find.antt =====
-- The loop of core/CanonizingPermutationSetAlg.cc: it ends, and no model is left.
use phd_thesis_src.Prelude.{
  ℕ, suc, zero, ◌<◌, ◌≤◌, ◌≡◌, refl, sym, ap, ◌∙◌, true, false, not, List, [], ◌∷◌, ◌++◌, arith,
  All, All-append, All-split, All-mono, length, ok, ◌>>=◌, Returns, Bool-cases, inl, inr,
}
use phd_thesis_src.Sat.{Lbool}
use phd_thesis_src.Sat.Semantics.{Valuation, Search, IsCorrect, truth}
use phd_thesis_src.Order.{lex_le, lex_lt, lex_le-lex_lt}
use phd_thesis_src.Matrix.Strings.{permuted}
use phd_thesis_src.Constraints.{Solver}
use phd_thesis_src.Constraints.Semantics.{IsRef-grow, IsRef-mono, vars, holds}
use phd_thesis_src.Constraints.Encodes.{Encodes, Encodes_then, Encodes_map}
use phd_thesis_src.Constraints.Ints.Rows.{rows, AreVars-kept}
use phd_thesis_src.Constraints.Answers.{with_model, decode_int_array}
use phd_thesis_src.Constraints.Answers.Decode.{decode_int_array-decoded}
use phd_thesis_src.Constraints.Answers.Solve.{Found, solve_lem, with_model-Encodes}
use phd_thesis_src.Constraints.Graphs.Pairs.{table}
use phd_thesis_src.Constraints.Interface.{constraint_solver}
use phd_thesis_src.Canonizing.{CanonicalIndexing, Round, indices}
use phd_thesis_src.Canonizing.SetUp.{SetUpResult}
use phd_thesis_src.Canonizing.Impose.{string, AreRefs, length-string}
use phd_thesis_src.Canonizing.Candidates.{
  same, same_sound, has, without, has-without, length-without_lt,
}
use phd_thesis_src.Canonizing.Decoded.{
  indices-pos, OneHot-ones, perm_of, perm_of-Maps, perm_of-IsInjective, second-permuted,
}
use phd_thesis_src.Canonizing.Done.{IsPermutation, string_congr}
use phd_thesis_src.Canonizing.Least.{IsInjective-IsPermutation}
use phd_thesis_src.Canonizing.PermutationSet.{find_permutations}
use phd_thesis_src.Canonizing.PermutationSet.Weak.{
  IsAtMost, IsAtMostAll, IsLess, IsAtMost-congr, Posted, post_lem,
}

module _ (index : CanonicalIndexing) (n : ℕ) (u : Round) (a : SetUpResult n u) where
  -- The models of the constraints with the permutations that were found.
  abbrev pub Model : List (List ℕ) → Valuation → Type 0
  Model found v =
      IsLess index n (table v a.x2) (table v a.x1) × IsAtMostAll index n found (table v a.x1)

  -- Where the loop stands: every permutation that can be decoded is one of `left`.
  pub record State (s : Solver) (found left : List (List ℕ)) : Type 0 where
    pub step : Encodes u.solver s (Model found) (Model found)
    pub perms : All (IsPermutation n) found
    pub candidates : (v : Valuation) → holds v s ≡ true → has (perm_of a v) left ≡ true

  -- What the loop ends with: permutations, and a solver with no model.
  pub record Finished (r : List (List ℕ) × Solver) : Type 0 where
    pub perms : All (IsPermutation n) r.0
    pub step : Encodes u.solver r.1 (Model r.0) (Model r.0)
    pub none : (v : Valuation) → holds v r.1 ≡ false

  refs_at : (s : Solver) → vars u.solver ≤ vars s → AreRefs n s a.x1
  refs_at s grows i j p q = IsRef-mono (a.x1 i j) grows (a.given.cells1 i j p q).ref

  perm_of-IsPermutation : (v : Valuation) → holds v u.solver ≡ true → IsPermutation n (perm_of a v)
  perm_of-IsPermutation v held =
      IsInjective-IsPermutation n (perm_of a v) (perm_of-Maps a v held)
        (perm_of-IsInjective a v held)

  -- A model in which the graph is at most the one permuted by `perm` has another permutation.
  other_perm :
      (w : Valuation) (perm : List ℕ) (found : List (List ℕ))
      → holds w u.solver ≡ true
      → Model found w
      → IsAtMost index n (table w a.x1) perm
      → same (perm_of a w) perm ≡ false
  other_perm w perm found held m at_most = elim (Bool-cases (same (perm_of a w) perm)) [
    | inr e ↦ e
    | inl e ↦
        let eq : perm_of a w ≡ perm = same_sound (perm_of a w) perm e in
        let e1 = table w a.x1 in
        let e2 = permuted perm e1 in
        let second : string index n (table w a.x2) ≡ string index n e2 =
          string_congr index n (table w a.x2) (permuted (perm_of a w) e1) (second-permuted a w held)
          ∙ ap (λ q. string index n (permuted q e1)) eq in
        let less : lex_lt (string index n e2) (string index n e1) ≡ true =
          ap (λ b. lex_lt b (string index n e1)) (sym second) ∙ m.0 in
        let clash : lex_le (string index n e1) (string index n e2) ≡ false =
          lex_le-lex_lt (string index n e1) (string index n e2)
            (length-string index n e1 ∙ sym (length-string index n e2))
          ∙ ap not less in
        absurd (cc (clash, at_most))
  ]

  module _ (s : Solver) (found left : List (List ℕ)) (st : State s found left)
      (m : List Lbool) where
    -- The solver with the constraint for one more permutation.
    extended :
        (perm : List ℕ) (s'' : Solver)
        → IsPermutation n perm
        → has perm left ≡ true
        → Encodes
            (with_model m s)
            s''
            (λ v. IsAtMost index n (table v a.x1) perm)
            (λ v. IsAtMost index n (table v a.x1) perm)
        → State s'' (found ++ (perm ∷ [])) (without perm left)
    extended perm s'' perm_ok is_left imp =
        let kept = with_model-Encodes m s st.step.valid in
        let M = λ (v : Valuation). IsAtMost index n (table v a.x1) perm in
        let one =
          Encodes_then M kept imp (λ v p. tt)
            (λ v w p agree q.
              IsAtMost-congr index n s a.x1 perm v w (refs_at s st.step.grows) perm_ok.0 agree p) in
        let more = found ++ (perm ∷ []) in
        record {
          step =
              Encodes_map
                (Encodes_then (Model more) st.step one
                  (λ v p. (p.0, (All-split _ found (perm ∷ []) p.1).0))
                  (λ v w p agree q.
                    IsAtMost-congr index n u.solver a.x1 perm v w (refs_at u.solver (omega arith))
                      perm_ok.0 agree (All-split _ found (perm ∷ []) p.1).1.0))
                (λ v p. p) (λ v q. (q.0.0, All-append _ found (perm ∷ []) q.0.1 (q.1.1, tt)));
          perms = All-append _ found (perm ∷ []) st.perms (perm_ok, tt);
          candidates = λ w held.
              let (held', at_most) = imp.sound w held in
              let held_s = (kept.sound w held').0 in
              let (held_u, model) = st.step.sound w held_s in
              has-without (perm_of a w) perm left (st.candidates w held_s)
                (other_perm w perm found held_u model at_most);
        }

  module _ (search : Search) (correct : IsCorrect search) where
    -- The permutation of the model that `solve` found.
    module _ (s : Solver) (found left : List (List ℕ)) (st : State s found left)
        (f : Found search s) where
      abbrev found_perm : List ℕ
      found_perm = perm_of a (truth f.model)

      in_round : holds (truth f.model) u.solver ≡ true
      in_round = (st.step.sound (truth f.model) f.held).0

      decode-found : (decode_int_array u.perm (with_model f.model s) >>= indices) ≡ ok found_perm
      decode-found =
          rw
            (decode_int_array-decoded (with_model f.model s) a.bs u.perm f.has_model
              (AreVars-kept u.solver.ints s.ints a.bs u.perm st.step.ints_kept a.are_vars)
              (All-mono _ _ (λ b. IsRef-grow b st.step.grows) a.bs a.bool_refs)
              (OneHot-ones n (rows (truth f.model) a.bs) (a.matrix (truth f.model) in_round).0.1))
            (indices-pos found_perm)

      post-found : Posted index n u.g1 a.x1 found_perm (with_model f.model s)
      post-found =
          post_lem index n u.g1 a.x1 found_perm (with_model f.model s)
            (with_model-Encodes f.model s st.step.valid).valid a.table1 (refs_at s st.step.grows)
            (perm_of-Maps a (truth f.model) in_round)

      extended-found :
          (s'' : Solver)
          → Encodes
              (with_model f.model s)
              s''
              (λ v. IsAtMost index n (table v a.x1) found_perm)
              (λ v. IsAtMost index n (table v a.x1) found_perm)
          → State s'' (found ++ (found_perm ∷ [])) (without found_perm left)
      extended-found s'' step =
          extended s found left st f.model found_perm s''
            (perm_of-IsPermutation (truth f.model) in_round) (st.candidates (truth f.model) f.held)
            step

    pub find_permutations-Finished :
        (fuel : ℕ) (s : Solver) (found left : List (List ℕ))
        → State s found left
        → length left < fuel
        → Returns
            (find_permutations index
              (constraint_solver search)
              fuel
              u
              (string index n a.x1)
              found
              s)
            Finished
    unfolding find_permutations
    find_permutations-Finished zero s found left st lt = absurd (omega arith)
    find_permutations-Finished (suc fuel) s found left st lt =
        elim (solve_lem search s correct st.step.valid) [
          | inr none ↦ (
            (found, with_model [] s),
            rw (none.answer, find_permutations) (rw (none.answer) refl),
            record {
              perms = st.perms;
              step =
                  Encodes_map
                    (Encodes_then (Model found) st.step (with_model-Encodes [] s st.step.valid)
                      (λ v p. p) (λ v w p g q. tt))
                    (λ v p. p) (λ v q. q.0);
              none = λ v. elim (Bool-cases (holds v (with_model [] s))) [
                | inr e ↦ e
                | inl e ↦
                    absurd (cc (none.none v, ((with_model-Encodes [] s st.step.valid).sound v e).0))
              ];
            },
          )
          | inl f ↦
              let perm = found_perm s found left st f in
              let posted = post-found s found left st f in
              let (s'', run, step) = posted.posts in
              let shorter = length-without_lt perm left (st.candidates (truth f.model) f.held) in
              let (r, run', done) =
                find_permutations-Finished fuel s'' (found ++ (perm ∷ [])) (without perm left)
                  (extended-found s found left st f s'' step) (omega (arith, shorter)) in
              (
                r,
                rw (f.answer, find_permutations)
                    (rw (f.answer) (
                      rw (decode-found s found left st f)
                        (rw posted.permutes (rw posted.indexes (rw run run'))))),
                done,
              )
        ]
