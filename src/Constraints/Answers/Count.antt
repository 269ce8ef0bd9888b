-- ===== src/Constraints/Answers/Count.antt =====
-- `countSolutions`: how many values the projected references take in the models.
use mathlib.Core.Bool.{Bool-discrete}
use mathlib.Core.List.{
  Mem, Nodup, Nodup-nil, Nodup-cons, List-discrete, dec_mem, mem-cons_self, mem-cons_of_mem,
  mem_of_ne_of_mem, not-mem-nil,
}
use phd_thesis_src.Prelude.{
  ℕ, zero, suc, ◌^◌, ◌<◌, ◌≡◌, ◌≢◌, refl, sym, ◌∙◌, subst, Bool, true, false, List, [], ◌∷◌, arith,
  All, any, length, Returns, Bool-cases, inl, inr,
}
use phd_thesis_src.Sat.{Lbool}
use phd_thesis_src.Sat.Semantics.{Valuation, Search, IsCorrect, truth}
use phd_thesis_src.Constraints.{BoolVarRef, Solver, bool_array_or}
use phd_thesis_src.Constraints.Semantics.{
  ref_value, values, IsRef, IsRef-grow, vars, holds, IsValid, values_congr, any_congr, Agree,
  length-values,
}
use phd_thesis_src.Constraints.Encodes.{Encodes, Encodes_then, Encodes_map, unchanged}
use phd_thesis_src.Constraints.Clauses.{Some, at_least_one-Encodes}
use phd_thesis_src.Constraints.Answers.{with_model, count_solutions}
use phd_thesis_src.Constraints.Answers.Solve.{solve_lem, with_model-Encodes}
use phd_thesis_src.Canonizing.Candidates.{
  same, same_sound, has, without, has-without, length-without_lt, all_lists, has-all_lists,
  length-all_lists,
}
use phd_thesis_src.Constraints.Answers.Blocked.{
  blocked, blocking_clause-blocked, blocked_refs, blocked-same, same-blocked, bits, bits-injective,
  bits-Maps, length-bits,
}

dec_row : Discrete (List Bool)
dec_row = List-discrete Bool-discrete

module _ (ps : List BoolVarRef) (s₀ : Solver) (refs : All (IsRef (vars s₀)) ps) where
  -- The values of the references are none of those that were found.
  abbrev Excluded : List (List Bool) → Valuation → Type 0
  Excluded found v = ¬ Mem (values v ps) found

  -- Some model has these values.
  abbrev IsShown : List Bool → Type 0
  IsShown x = (v : Valuation) × (holds v s₀ ≡ true) × (values v ps ≡ x)

  -- The count is that of a list without repetition of all values that the models have.
  pub record Counted (r : ℕ × Solver) : Type 0 where
    pub found : List (List Bool)
    pub counted : r.0 ≡ length found
    pub distinct : Nodup found
    pub shown : All IsShown found
    pub complete : (v : Valuation) → holds v s₀ ≡ true → Mem (values v ps) found

  -- Where the loop stands: every value that can be found is one of `left`.
  record State (s : Solver) (found : List (List Bool)) (left : List (List ℕ)) : Type 0 where
    step : Encodes s₀ s (Excluded found) (Excluded found)
    distinct : Nodup found
    shown : All IsShown found
    candidates : (v : Valuation) → holds v s ≡ true → has (bits (values v ps)) left ≡ true

  other_row :
      (v t : Valuation)
      → any (ref_value v) (blocked t ps) ≡ true
      → same (bits (values v ps)) (bits (values t ps)) ≡ false
  other_row v t h = elim (Bool-cases (same (bits (values v ps)) (bits (values t ps)))) [
    | inr e ↦ e
    | inl e ↦
        let eq =
          bits-injective (values v ps) (values t ps)
            (same_sound (bits (values v ps)) (bits (values t ps)) e) in
        absurd (cc (h, blocked-same (vars s₀) v t ps refs eq))
  ]

  module _ (s : Solver) (found : List (List Bool)) (left : List (List ℕ)) (st : State s found left)
      (m : List Lbool) (held : holds (truth m) s ≡ true) where
    abbrev row : List Bool
    row = values (truth m) ps

    refs_now : All (IsRef (vars s)) ps
    refs_now = IsRef-grow ps st.step.grows refs

    -- The solver with the clause that excludes the model.
    excluded :
        State
          (bool_array_or (blocked (truth m) ps) (with_model m s))
          (row ∷ found)
          (without (bits row) left)
    excluded =
        let t = truth m in
        let kept = with_model-Encodes m s st.step.valid in
        let post =
          at_least_one-Encodes (blocked t ps) (with_model m s) kept.valid
            (blocked_refs (vars s) t ps refs_now) in
        let one =
          Encodes_then (Some (blocked t ps)) kept post (λ v p. tt)
            (λ v w p g q.
              sym (any_congr v w g (blocked t ps) (blocked_refs (vars s) t ps refs_now)) ∙ p) in
        record {
          step =
              Encodes_map
                (Encodes_then (Excluded (row ∷ found)) st.step one
                  (λ v p mem. p (mem-cons_of_mem row mem))
                  (λ v w p agree q. excluded-Some v w p agree))
                (λ v p. p) (λ v q mem. q.0 (mem_of_ne_of_mem (Some-other v q.1.1) mem));
          distinct = Nodup-cons.1 ((st.step.sound t held).1, st.distinct);
          shown = ((t, (st.step.sound t held).0, refl), st.shown);
          candidates = λ w held'.
              let (held_s, some_true) = one.sound w held' in
              has-without (bits (values w ps)) (bits row) left (st.candidates w held_s)
                (other_row w t some_true.1);
        }
      where
        Some-other : (v : Valuation) → Some (blocked (truth m) ps) v → values v ps ≢ row
        Some-other v h e = absurd (cc (h, blocked-same (vars s₀) v (truth m) ps refs e))

        excluded-Some :
            (v w : Valuation)
            → Excluded (row ∷ found) v
            → Agree (vars s₀) v w
            → Some (blocked (truth m) ps) w
        excluded-Some v w p agree = elim (Bool-cases (any (ref_value w) (blocked (truth m) ps))) [
          | inl e ↦ e
          | inr e ↦
              let eq =
                values_congr v w agree ps refs ∙ same-blocked (vars s₀) w (truth m) ps refs e in
              absurd (p (subst (λ x. Mem x (row ∷ found)) (sym eq) mem-cons_self))
        ]

  module _ (search : Search) (correct : IsCorrect search) where
    count_from-Counted :
        (fuel : ℕ) (s : Solver) (found : List (List Bool)) (left : List (List ℕ))
        → State s found left
        → length left < fuel
        → Returns (count_solutions search fuel ps (length found) s) Counted
    unfolding count_solutions
    count_from-Counted zero s found left st lt = absurd (omega arith)
    count_from-Counted (suc fuel) s found left st lt =
        elim (solve_lem search s correct st.step.valid) [
          | inr none ↦ (
            (length found, with_model [] s),
            rw (none.answer, count_solutions) (rw (none.answer) refl),
            record {
              found = found;
              counted = refl;
              distinct = st.distinct;
              shown = st.shown;
              complete = λ v held. elim (dec_mem dec_row (values v ps) found) [
                | yes mem ↦ mem
                | no other ↦
                    let (w, agree, held') = st.step.complete v held other in
                    absurd (cc (none.none w, held'))
              ];
            },
          )
          | inl f ↦
              let t = truth f.model in
              let shorter = length-without_lt (bits (values t ps)) left (st.candidates t f.held) in
              let block =
                blocking_clause-blocked f.model s ps f.has_model
                  (IsRef-grow ps st.step.grows refs) in
              let (r, run, done) =
                count_from-Counted fuel (bool_array_or (blocked t ps) (with_model f.model s))
                  (values t ps ∷ found) (without (bits (values t ps)) left)
                  (excluded s found left st f.model f.held) (omega (arith, shorter)) in
              (r, rw (f.answer, count_solutions) (rw (f.answer) (rw block run)), done)
        ]

  -- With a correct search, on a valid solver and references to its variables, and fuel above 2 ^ k for
  -- k references, `countSolutions` returns. Its count is the length of a list without repetition of
  -- the values that the references have in the models of the solver: each value of the list is that
  -- of some model, and the values of each model are in the list.
  pub count_solutions-Counted :
      (search : Search)
      → IsCorrect search
      → IsValid s₀
      → (fuel : ℕ) → 2 ^ length ps < fuel
      → Returns (count_solutions search fuel ps 0 s₀) Counted
  count_solutions-Counted search correct h fuel enough =
      count_from-Counted search correct fuel s₀ [] (all_lists 2 (length ps))
        (record {
          step = Encodes_map (unchanged s₀ h) (λ v p. tt) (λ v q. not-mem-nil);
          distinct = Nodup-nil;
          shown = tt;
          candidates = λ v held.
              subst (λ m. has (bits (values v ps)) (all_lists 2 m) ≡ true)
                (length-bits (values v ps) ∙ length-values v ps)
                (has-all_lists 2 (bits (values v ps)) (bits-Maps (values v ps)));
        })
        (omega (arith, length-all_lists 2 (length ps)))
