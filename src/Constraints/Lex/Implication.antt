-- ===== src/Constraints/Lex/Implication.antt =====
-- `boolArraysLexImplication` and `boolArraysLexLtImplication`: one implication of the order, and
-- its negation for the strings in the other order.
use phd_thesis_src.Prelude.{
  ℕ, zero, suc, ◌≡◌, ◌<◌, refl, sym, ap₂, ◌∙◌, Bool, true, false, iff, List, [], ◌∷◌, arith, All,
  any, length, Returns, if◌then◌else◌,
}
use phd_thesis_src.Sat.Semantics.{Valuation}
use phd_thesis_src.Order.{implied_at, less_at}
use phd_thesis_src.Constraints.{BoolVarRef, Solver, neg, at_least_one, set_bool_var, new_bool_var}
use phd_thesis_src.Constraints.Semantics.{
  ref_value, values, IsRef, Agree, vars, IsValid, IsRef-mono, IsRef-grow, IsRef-neg, ref_value-neg,
  ref_value_congr, values_congr,
}
use phd_thesis_src.Constraints.Encodes.{Encodes, Encodes_then, Encodes_map, Always, unchanged}
use phd_thesis_src.Constraints.Clauses.{at_least_one-Encodes, set_bool_var-eq}
use phd_thesis_src.Constraints.Gates.{bool_iff_reif, fresh_iff-Encodes, IsRef-fresh_iff}
use phd_thesis_src.Constraints.IffCache.{bool_iff_reif_cached, bool_iff_reif_cached-Encodes}
use phd_thesis_src.Constraints.Lex.{
  lex_implication_clause, bool_arrays_lex_implication, less_at_clauses,
  bool_arrays_lex_lt_implication,
}

-- The references of the clause, and its meaning once the equalities have variables.
abbrev ClauseResult :
    ℕ → List BoolVarRef → List BoolVarRef → Solver → List BoolVarRef × Solver → Type 0
ClauseResult k xs ys s r =
    All (IsRef (vars r.1)) r.0
    × Encodes s r.1 Always (λ v. any (ref_value v) r.0 ≡ implied_at k (values v xs) (values v ys))

lex_implication_clause-Encodes :
    (k : ℕ) (xs ys : List BoolVarRef) (s : Solver)
    → IsValid s
    → k < length xs
    → length xs ≡ length ys
    → All (IsRef (vars s)) xs
    → All (IsRef (vars s)) ys
    → Returns (lex_implication_clause k xs ys s) (ClauseResult k xs ys s)
unfolding lex_implication_clause
lex_implication_clause-Encodes k [] ys s h lt e rx ry = absurd (omega arith)
lex_implication_clause-Encodes k (x ∷ xs) [] s h lt e rx ry = absurd (omega arith)
lex_implication_clause-Encodes zero (x ∷ xs) (y ∷ ys) s h lt e rx ry = (
  (neg x ∷ y ∷ [], s),
  refl,
  (
    (IsRef-neg x rx.0, (ry.0, tt)),
    Encodes_map (unchanged s h) (λ v p. p) (λ v q. ground (arith, ref_value-neg v x rx.0)),
  ),
)
lex_implication_clause-Encodes (suc k) (x ∷ xs) (y ∷ ys) s h lt e rx ry =
    let r = bool_iff_reif_cached x y s in
    let (rt, first) = bool_iff_reif_cached-Encodes x y s h rx.0 ry.0 in
    let (c, run, (refs, rest)) =
      lex_implication_clause-Encodes k xs ys r.1 first.valid (omega arith) (omega arith)
        (IsRef-grow xs first.grows rx.1) (IsRef-grow ys first.grows ry.1) in
    (
      (neg r.0 ∷ c.0, c.1),
      rw run,
      (
        (IsRef-neg r.0 (IsRef-mono r.0 rest.grows rt), refs),
        Encodes_map (Encodes_then Always first rest (λ v p. p) (λ v w p agree q. p)) (λ v p. p)
            (λ v q. ground (arith, q.0, q.1, ref_value-neg v r.0 rt)),
      ),
    )

-- Position `k` of the two strings satisfies the implication.
abbrev pub Implied : ℕ → List BoolVarRef → List BoolVarRef → Valuation → Type 0
Implied k xs ys v = implied_at k (values v xs) (values v ys) ≡ true

-- The two strings first differ at position `k`, and the first is less there.
abbrev pub LessAt : ℕ → List BoolVarRef → List BoolVarRef → Valuation → Type 0
LessAt k xs ys v = less_at k (values v xs) (values v ys) ≡ true

module _ (k : ℕ) (xs ys : List BoolVarRef) where
  Implied-congr :
      {n : ℕ} (v w : Valuation)
      → Agree n v w
      → All (IsRef n) xs
      → All (IsRef n) ys
      → Implied k xs ys v
      → Implied k xs ys w
  Implied-congr v w agree rx ry p =
      ap₂ (λ a b. implied_at k a b) (sym (values_congr v w agree xs rx))
        (sym (values_congr v w agree ys ry))
      ∙ p

  -- On a valid solver, whatever is in its cache, and arrays of one length of references to its
  -- variables `boolArraysLexImplication` with `length` from 1 to theirs succeeds. In its models the
  -- implication of that length holds, and each model of the solver in which it holds becomes one
  -- when the new variables get values.
  pub bool_arrays_lex_implication-Encodes :
      (s : Solver)
      → IsValid s
      → k < length xs
      → length xs ≡ length ys
      → All (IsRef (vars s)) xs
      → All (IsRef (vars s)) ys
      → Returns
          (bool_arrays_lex_implication xs ys (suc k) s)
          λ s'. Encodes s s' (Implied k xs ys) (Implied k xs ys)
  unfolding bool_arrays_lex_implication
  bool_arrays_lex_implication-Encodes s h lt e rx ry =
      let (r, run, (refs, step)) = lex_implication_clause-Encodes k xs ys s h lt e rx ry in
      let last = at_least_one-Encodes r.0 r.1 step.valid refs in
      (
        at_least_one r.0 r.1,
        ground (arith, e, run),
        Encodes_map
            (Encodes_then (Implied k xs ys) step last (λ v p. tt)
              (λ v w p agree q. q ∙ Implied-congr v w agree rx ry p))
            (λ v p. p) (λ v q. sym q.0 ∙ q.1),
      )

-- A reference is set.
pub set_true :
    (x : BoolVarRef) (val : Bool) (s : Solver)
    → IsValid s
    → IsRef (vars s) x
    → Encodes s (set_bool_var x val s) (λ v. ref_value v x ≡ val) (λ v. ref_value v x ≡ val)
set_true x val s h r = rw (set_bool_var-eq x val s r) (
    Encodes_map (at_least_one-Encodes ((if val then x else neg x) ∷ []) s h (go val, tt))
      (λ v p. ground (arith, p, ref_value-neg v x r))
      (λ v q. ground (arith, q, ref_value-neg v x r)))
  where
    go : (b : Bool) → IsRef (vars s) (if b then x else neg x)
    go true = r
    go false = IsRef-neg x r

less_at_clauses-Encodes :
    (k : ℕ) (xs ys : List BoolVarRef) (s : Solver)
    → IsValid s
    → k < length xs
    → length xs ≡ length ys
    → All (IsRef (vars s)) xs
    → All (IsRef (vars s)) ys
    → Returns (less_at_clauses k xs ys s) λ s'. Encodes s s' (LessAt k xs ys) (LessAt k xs ys)
unfolding less_at_clauses
less_at_clauses-Encodes k [] ys s h lt e rx ry = absurd (omega arith)
less_at_clauses-Encodes k (x ∷ xs) [] s h lt e rx ry = absurd (omega arith)
less_at_clauses-Encodes zero (x ∷ xs) (y ∷ ys) s h lt e rx ry =
    let first = set_true x false s h rx.0 in
    let second =
      set_true y true (set_bool_var x false s) first.valid (IsRef-mono y first.grows ry.0) in
    (
      set_bool_var y true (set_bool_var x false s),
      refl,
      Encodes_map
          (Encodes_then (LessAt zero (x ∷ xs) (y ∷ ys)) first second (λ v p. ground arith)
            (λ v w p agree q. ground (arith, ref_value_congr v w y agree ry.0)))
          (λ v p. p) (λ v q. ground (arith, q.0, q.1)),
    )
less_at_clauses-Encodes (suc k) (x ∷ xs) (y ∷ ys) s h lt e rx ry =
    let t = (new_bool_var s).0 in
    let s₁ = bool_iff_reif x y t (new_bool_var s).1 in
    let first = fresh_iff-Encodes x y s h rx.0 ry.0 in
    let second = set_true t true s₁ first.valid (IsRef-fresh_iff x y s h rx.0 ry.0) in
    let both =
      Encodes_then (λ v. iff (ref_value v x) (ref_value v y) ≡ true) first second (λ v p. tt)
        (λ v w p agree q.
          ground (arith, ref_value_congr v w x agree rx.0, ref_value_congr v w y agree ry.0)) in
    let (s₂, run, rest) =
      less_at_clauses-Encodes k xs ys (set_bool_var t true s₁) both.valid (omega arith)
        (omega arith) (IsRef-grow xs both.grows rx.1) (IsRef-grow ys both.grows ry.1) in
    (
      s₂,
      run,
      Encodes_map
          (Encodes_then (LessAt (suc k) (x ∷ xs) (y ∷ ys)) both rest (λ v p. ground arith)
            (λ v w p agree q.
              ground (arith, values_congr v w agree xs rx.1, values_congr v w agree ys ry.1)))
          (λ v p. p) (λ v q. ground (arith, q.0, q.1)),
    )

-- On a valid solver and arrays of one length of references to its variables
-- `boolArraysLexLtImplication` with `length` from 1 to theirs succeeds. In its models the strings
-- first differ at that position with the first less there, and each model of the solver with that
-- becomes one when the new variables get values.
pub bool_arrays_lex_lt_implication-Encodes :
    (k : ℕ) (xs ys : List BoolVarRef) (s : Solver)
    → IsValid s
    → k < length xs
    → length xs ≡ length ys
    → All (IsRef (vars s)) xs
    → All (IsRef (vars s)) ys
    → Returns
        (bool_arrays_lex_lt_implication xs ys (suc k) s)
        λ s'. Encodes s s' (LessAt k xs ys) (LessAt k xs ys)
unfolding bool_arrays_lex_lt_implication
bool_arrays_lex_lt_implication-Encodes k xs ys s h lt e rx ry =
    let (s', run, step) = less_at_clauses-Encodes k xs ys s h lt e rx ry in
    (s', ground (arith, e, run), step)
