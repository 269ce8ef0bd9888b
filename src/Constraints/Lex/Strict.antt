-- ===== src/Constraints/Lex/Strict.antt =====
-- `boolArraysLexLt`: the first string is less than the second.
use phd_thesis_src.Prelude.{
  ℕ, ◌≡◌, ◌-◌, sym, ap, ap₂, ◌∙◌, true, List, [], arith, All, any, length, ok, Returns, ◌>>=◌,
}
use phd_thesis_src.Sat.Semantics.{Valuation}
use phd_thesis_src.Order.{lex_lt}
use phd_thesis_src.Constraints.{BoolVarRef, Solver, new_bool_vars, bool_array_or, at_least_one}
use phd_thesis_src.Constraints.Semantics.{
  ref_value, values, IsRef, Agree, vars, IsValid, IsRef-grow, values_congr, length-values,
}
use phd_thesis_src.Constraints.Encodes.{Encodes, Encodes_then, Encodes_map}
use phd_thesis_src.Constraints.Clauses.{at_least_one-Encodes}
use phd_thesis_src.Constraints.Fresh.{new_bool_vars-Encodes, Encodes_freshes}
use phd_thesis_src.Constraints.Lex.{reify_prefix, strict_gates, bool_arrays_lex_lt}
use phd_thesis_src.Constraints.Lex.Equalities.{Equalities, Equalities-congr, reify_prefix-Encodes}
use phd_thesis_src.Constraints.Lex.Marks.{
  differences, any_true, any_true-differences, length-differences, any-values, Marks, Marked, Refs,
  Marked-congr, strict_gates-Encodes,
}

-- The first string is less than the second.
abbrev pub LexLt : List BoolVarRef → List BoolVarRef → Valuation → Type 0
LexLt xs ys v = lex_lt (values v xs) (values v ys) ≡ true

-- What is asked for once the equalities have variables.
Marks-lex_lt :
    (v : Valuation) (ts xs ys : List BoolVarRef)
    → length xs ≡ length ys
    → Marks [] ts xs ys v
    → any (ref_value v) ts ≡ lex_lt (values v xs) (values v ys)
Marks-lex_lt v ts xs ys e m =
    any-values v ts
    ∙ ap any_true m
    ∙ any_true-differences true (values v xs) (values v ys)
        (omega (arith, length-values v xs, length-values v ys))

module _ (xs ys : List BoolVarRef) (e : length xs ≡ length ys) where
  LexLt-congr :
      {n : ℕ} (v w : Valuation)
      → Agree n v w
      → All (IsRef n) xs
      → All (IsRef n) ys
      → LexLt xs ys v
      → LexLt xs ys w
  LexLt-congr v w agree rx ry p =
      ap₂ (λ a b. lex_lt a b) (sym (values_congr v w agree xs rx))
        (sym (values_congr v w agree ys ry))
      ∙ p

  gates_then_clause :
      (rs ts : List BoolVarRef) (s : Solver)
      → IsValid s
      → length ts ≡ length xs
      → length rs ≡ length xs - 1
      → Refs (vars s) [] rs ts xs ys
      → Returns (strict_gates [] rs ts xs ys s >>= (λ s'. ok (bool_array_or ts s'))) λ s'.
        Encodes s s'
          (λ v. Marked [] rs ts xs ys v × LexLt xs ys v)
          (λ v. Equalities rs xs ys v → LexLt xs ys v)
  gates_then_clause rs ts s h len f refs =
      let (s₁, run, gates) = strict_gates-Encodes [] rs ts xs ys s h len e f refs in
      let last = at_least_one-Encodes ts s₁ gates.valid (IsRef-grow ts gates.grows refs.2) in
      (
        at_least_one ts s₁,
        rw run,
        Encodes_map
            (Encodes_then (λ v. Marked [] rs ts xs ys v × LexLt xs ys v) gates last (λ v p. p.0)
              (λ v w p agree q.
                let m = Marked-congr v w [] rs ts xs ys agree refs p.0 in
                Marks-lex_lt w ts xs ys e m.1 ∙ LexLt-congr v w agree refs.3 refs.4 p.1))
            (λ v p. p) (λ v q eqs. sym (Marks-lex_lt v ts xs ys e (q.0 eqs)) ∙ q.1),
      )

  -- On a valid solver and arrays of one length of references to its variables `boolArraysLexLt`
  -- succeeds. In its models the first string is less than the second, and each model of the solver
  -- with that becomes one when the new variables get values.
  pub bool_arrays_lex_lt-Encodes :
      (s : Solver)
      → IsValid s
      → All (IsRef (vars s)) xs
      → All (IsRef (vars s)) ys
      → Returns (bool_arrays_lex_lt xs ys s) λ s'. Encodes s s' (LexLt xs ys) (LexLt xs ys)
  unfolding bool_arrays_lex_lt
  bool_arrays_lex_lt-Encodes s h rx ry =
      let r = reify_prefix xs ys s in
      let (f, refs, step) = reify_prefix-Encodes xs ys s e h rx ry in
      let u = new_bool_vars (length xs) r.1 in
      let (len, fresh, made) = new_bool_vars-Encodes (length xs) r.1 step.valid in
      let wide = λ (bs : List BoolVarRef) (rb : All (IsRef (vars s)) bs).
        IsRef-grow {m = vars u.1} bs (omega (arith, step.grows, made.grows)) rb in
      let (s', run, rest) =
        gates_then_clause r.0 u.0 u.1 made.valid len f
          (tt, IsRef-grow r.0 made.grows refs, fresh, wide xs rx, wide ys ry) in
      let chosen =
        Encodes_freshes (length xs) r.1 step.valid (λ v. Equalities r.0 xs ys v × LexLt xs ys v)
          (λ v. differences true (values v xs) (values v ys)) rest
          (λ v p.
            length-differences true (values v xs) (values v ys)
              (omega (arith, e, length-values v xs, length-values v ys))
            ∙ length-values v xs)
          (λ v w p agree m.
            let rx' = IsRef-grow xs step.grows rx in
            let ry' = IsRef-grow ys step.grows ry in
            (
              (
                Equalities-congr v w r.0 xs ys agree refs rx' ry' p.0,
                m
                    ∙ ap₂ (λ a b. differences true a b) (values_congr v w agree xs rx')
                        (values_congr v w agree ys ry'),
              ),
              LexLt-congr v w agree rx' ry' p.1,
            )) in
      (
        s',
        ground (arith, e, run),
        Encodes_map
            (Encodes_then (LexLt xs ys) step chosen (λ v p. tt)
              (λ v w p agree q. (q, LexLt-congr v w agree rx ry p)))
            (λ v p. p) (λ v q. q.1 q.0),
      )
