-- ===== src/Constraints/Lex/Weak.antt =====
-- `boolArraysLex`: the first string is at most the second.
use phd_thesis_src.Prelude.{
  ℕ, ◌≡◌, refl, sym, ap₂, ◌∙◌, true, not, ◌&&◌, ◌||◌, List, [], ◌∷◌, ◌++◌, map, arith, All,
  All-append, any, all, length, Bool-cases, inl, inr, Returns,
}
use phd_thesis_src.Sat.Semantics.{Valuation}
use phd_thesis_src.Order.{lex_le}
use phd_thesis_src.Constraints.{BoolVarRef, Solver, neg}
use phd_thesis_src.Constraints.Semantics.{
  ref_value, values, IsRef, vars, IsValid, IsRef-grow, IsRef-neg, ref_value-neg, values_congr,
}
use phd_thesis_src.Constraints.Encodes.{Encodes, Encodes_then, Encodes_map}
use phd_thesis_src.Constraints.Clauses.{post_all, post_all-Encodes, AllSome}
use phd_thesis_src.Constraints.Lex.{reify_prefix, horn_clauses, bool_arrays_lex}
use phd_thesis_src.Constraints.Lex.Equalities.{Equalities, reify_prefix-Encodes}

horn_list :
    List BoolVarRef → List BoolVarRef → List BoolVarRef → List BoolVarRef → List (List BoolVarRef)
horn_list done rs [] ys = []
horn_list done rs (x ∷ xs) [] = []
horn_list done [] (x ∷ xs) (y ∷ ys) = (map neg done ++ (neg x ∷ y ∷ [])) ∷ []
horn_list done (r ∷ rs) (x ∷ xs) (y ∷ ys) =
    (map neg done ++ (neg x ∷ y ∷ [])) ∷ horn_list (done ++ (r ∷ [])) rs xs ys

horn_clauses-eq :
    (done rs xs ys : List BoolVarRef) (s : Solver)
    → horn_clauses done rs xs ys s ≡ post_all (horn_list done rs xs ys) s
unfolding horn_clauses horn_list post_all
horn_clauses-eq done rs [] ys s = refl
horn_clauses-eq done rs (x ∷ xs) [] s = refl
horn_clauses-eq done [] (x ∷ xs) (y ∷ ys) s = refl
horn_clauses-eq done (r ∷ rs) (x ∷ xs) (y ∷ ys) s = horn_clauses-eq (done ++ (r ∷ [])) rs xs ys _

module _ (n : ℕ) where
  IsRef-map-neg : (bs : List BoolVarRef) → All (IsRef n) bs → All (IsRef n) (map neg bs)
  IsRef-map-neg [] h = tt
  IsRef-map-neg (b ∷ bs) h = (IsRef-neg b h.0, IsRef-map-neg bs h.1)

  horn_refs :
      (done rs xs ys : List BoolVarRef)
      → All (IsRef n) done
      → All (IsRef n) rs
      → All (IsRef n) xs
      → All (IsRef n) ys
      → All (All (IsRef n)) (horn_list done rs xs ys)
  unfolding horn_list
  horn_refs done rs [] ys d r rx ry = tt
  horn_refs done rs (x ∷ xs) [] d r rx ry = tt
  horn_refs done [] (x ∷ xs) (y ∷ ys) d r rx ry = (
    All-append _ (map neg done) (neg x ∷ y ∷ []) (IsRef-map-neg done d)
        (IsRef-neg x rx.0, (ry.0, tt)),
    tt,
  )
  horn_refs done (r ∷ rs) (x ∷ xs) (y ∷ ys) d refs rx ry = (
    All-append _ (map neg done) (neg x ∷ y ∷ []) (IsRef-map-neg done d)
        (IsRef-neg x rx.0, (ry.0, tt)),
    horn_refs (done ++ (r ∷ [])) rs xs ys (All-append _ done (r ∷ []) d (refs.0, tt)) refs.1 rx.1
        ry.1,
  )

  module _ (v : Valuation) where
    -- A Horn clause is an implication.
    horn_value :
        (done : List BoolVarRef) (x y : BoolVarRef)
        → All (IsRef n) done
        → IsRef n x
        → any (ref_value v) (map neg done ++ (neg x ∷ y ∷ []))
          ≡ (not (all (ref_value v) done) || (not (ref_value v x) || ref_value v y))
    horn_value [] x y d rx = ground (arith, ref_value-neg v x rx)
    horn_value (b ∷ done) x y d rx =
        ground (arith, ref_value-neg v b d.0, horn_value done x y d.1 rx)

    all-concat :
        (done : List BoolVarRef) (r : BoolVarRef)
        → all (ref_value v) (done ++ (r ∷ [])) ≡ (all (ref_value v) done && ref_value v r)
    all-concat [] r = ground arith
    all-concat (b ∷ done) r = ground (arith, all-concat done r)

    horn_sound :
        (done rs xs ys : List BoolVarRef)
        → All (IsRef n) done
        → All (IsRef n) rs
        → All (IsRef n) xs
        → Equalities rs xs ys v
        → all (ref_value v) done ≡ true
        → AllSome (horn_list done rs xs ys) v
        → lex_le (values v xs) (values v ys) ≡ true
    unfolding horn_list
    horn_sound done [] [] ys d r rx e p q = refl
    horn_sound done [] (x ∷ []) (y ∷ []) d r rx e p q = ground (arith, horn_value done x y d rx.0)
    horn_sound done (r ∷ rs) (x ∷ x' ∷ xs) (y ∷ ys) d refs rx e p q =
        elim (Bool-cases (ref_value v r)) [
          | inl t ↦
              let next : all (ref_value v) (done ++ (r ∷ [])) ≡ true =
                ground (arith, all-concat done r) in
              let rest =
                horn_sound (done ++ (r ∷ [])) rs (x' ∷ xs) ys
                  (All-append _ done (r ∷ []) d (refs.0, tt)) refs.1 rx.1 e.1 next q.1 in
              ground (arith, e.0)
          | inr f ↦ ground (arith, e.0, q.0, horn_value done x y d rx.0)
        ]
    horn_sound done rs xs ys d r rx e p q = elim e [ ]

    horn_complete :
        (done rs xs ys : List BoolVarRef)
        → All (IsRef n) done
        → All (IsRef n) rs
        → All (IsRef n) xs
        → Equalities rs xs ys v
        → (all (ref_value v) done ≡ true → lex_le (values v xs) (values v ys) ≡ true)
        → AllSome (horn_list done rs xs ys) v
    unfolding horn_list
    horn_complete done [] [] ys d r rx e p = tt
    horn_complete done [] (x ∷ []) (y ∷ []) d r rx e p =
        (ground (arith, horn_value done x y d rx.0), tt)
    horn_complete done (r ∷ rs) (x ∷ x' ∷ xs) (y ∷ ys) d refs rx e p = (
      ground (arith, horn_value done x y d rx.0),
      horn_complete (done ++ (r ∷ [])) rs (x' ∷ xs) ys (All-append _ done (r ∷ []) d (refs.0, tt))
          refs.1 rx.1 e.1 (λ t. ground (arith, e.0, all-concat done r)),
    )
    horn_complete done rs xs ys d r rx e p = elim e [ ]

-- The first string is at most the second.
abbrev pub LexLe : List BoolVarRef → List BoolVarRef → Valuation → Type 0
LexLe xs ys v = lex_le (values v xs) (values v ys) ≡ true

-- On a valid solver and arrays of one length of references to its variables `boolArraysLex`
-- succeeds. In its models the first string is at most the second, and each model of the solver with
-- that becomes one when the new variables get values.
pub bool_arrays_lex-Encodes :
    (xs ys : List BoolVarRef) (s : Solver)
    → IsValid s
    → length xs ≡ length ys
    → All (IsRef (vars s)) xs
    → All (IsRef (vars s)) ys
    → Returns (bool_arrays_lex xs ys s) λ s'. Encodes s s' (LexLe xs ys) (LexLe xs ys)
unfolding bool_arrays_lex
bool_arrays_lex-Encodes xs ys s h e rx ry =
    let r = reify_prefix xs ys s in
    let (_, refs, step) = reify_prefix-Encodes xs ys s e h rx ry in
    let n = vars r.1 in
    let rx' = IsRef-grow xs step.grows rx in
    let ry' = IsRef-grow ys step.grows ry in
    let horn =
      post_all-Encodes (horn_list [] r.0 xs ys) r.1 step.valid
        (horn_refs n [] r.0 xs ys tt refs rx' ry') in
    (
      horn_clauses [] r.0 xs ys r.1,
      ground arith,
      rw (horn_clauses-eq [] r.0 xs ys r.1) (
          Encodes_map
            (Encodes_then (LexLe xs ys) step horn (λ v p. tt)
              (λ v w p agree q. horn_complete n w [] r.0 xs ys tt refs rx' q (λ t.
                ap₂ (λ a b. lex_le a b) (sym (values_congr v w agree xs rx))
                  (sym (values_congr v w agree ys ry))
                ∙ p)))
            (λ v p. p) (λ v q. horn_sound n v [] r.0 xs ys tt refs rx' q.0 refl q.1)),
    )
