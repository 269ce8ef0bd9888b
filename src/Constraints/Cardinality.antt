-- ===== src/Constraints/Cardinality.antt =====
-- `atMostOne` and `exactlyOne` of core/ConstraintSolver.cc.
use phd_thesis_src.Prelude.{
  ℕ, ◌≡◌, ◌≤◌, refl, true, List, [], ◌∷◌, ◌++◌, map, arith, All, All-append, All-split, any,
  abs-neg_ℤ, if◌then◌else◌, ◌∙◌, sym, ap, ◌+◌,
}
use phd_thesis_src.Sat.Semantics.{Valuation}
use phd_thesis_src.Constraints.{BoolVarRef, Solver, neg, to_lit, post, at_least_one}
use phd_thesis_src.Constraints.Semantics.{ref_value, IsRef, vars, IsValid, ref_value-neg}
use phd_thesis_src.Constraints.Encodes.{Encodes, Encodes_map}
use phd_thesis_src.Constraints.Clauses.{post_all, post_all-Encodes, AllSome}

-- The inner loop of `atMostOne`.
exclude : BoolVarRef → List BoolVarRef → Solver → Solver
exclude b [] s = s
exclude b (c ∷ cs) s = exclude b cs (post (to_lit (neg b) ∷ to_lit (neg c) ∷ []) s)

pub at_most_one : List BoolVarRef → Solver → Solver
unfolding exclude
at_most_one [] s = s
at_most_one (b ∷ bs) s = at_most_one bs (exclude b bs s)

pub exactly_one : List BoolVarRef → Solver → Solver
exactly_one bs s = at_most_one bs (at_least_one bs s)

-- How many of the references are true.
abbrev pub count_true : Valuation → List BoolVarRef → ℕ
count_true v [] = 0
count_true v (b ∷ bs) = (if ref_value v b then 1 else 0) + count_true v bs

-- The clauses of `exclude` and of `atMostOne`.
abbrev against : BoolVarRef → List BoolVarRef → List (List BoolVarRef)
against b = map (λ c. neg b ∷ neg c ∷ [])

pairs : List BoolVarRef → List (List BoolVarRef)
pairs [] = []
pairs (b ∷ bs) = against b bs ++ pairs bs

post_all-append :
    (cs ds : List (List BoolVarRef)) (s : Solver)
    → post_all (cs ++ ds) s ≡ post_all ds (post_all cs s)
unfolding post_all
post_all-append [] ds s = refl
post_all-append (c ∷ cs) ds s = post_all-append cs ds (at_least_one c s)

exclude-next_int_id :
    (b : BoolVarRef) (bs : List BoolVarRef) (s : Solver)
    → (exclude b bs s).next_int_id ≡ s.next_int_id
unfolding exclude
exclude-next_int_id b [] s = refl
exclude-next_int_id b (c ∷ bs) s = exclude-next_int_id b bs _

at_most_one-next_int_id :
    (bs : List BoolVarRef) (s : Solver) → (at_most_one bs s).next_int_id ≡ s.next_int_id
unfolding at_most_one
at_most_one-next_int_id [] s = refl
at_most_one-next_int_id (b ∷ bs) s =
    at_most_one-next_int_id bs (exclude b bs s) ∙ exclude-next_int_id b bs s

pub exactly_one-next_int_id :
    (bs : List BoolVarRef) (s : Solver) → (exactly_one bs s).next_int_id ≡ s.next_int_id
unfolding exactly_one at_least_one
exactly_one-next_int_id bs s = at_most_one-next_int_id bs (at_least_one bs s)

exclude-eq :
    (b : BoolVarRef) (bs : List BoolVarRef) (s : Solver)
    → exclude b bs s ≡ post_all (against b bs) s
unfolding exclude post_all at_least_one
exclude-eq b [] s = refl
exclude-eq b (c ∷ bs) s = exclude-eq b bs _

at_most_one-eq : (bs : List BoolVarRef) (s : Solver) → at_most_one bs s ≡ post_all (pairs bs) s
unfolding at_most_one pairs
at_most_one-eq [] s = unfold post_all in refl
at_most_one-eq (b ∷ bs) s =
    at_most_one-eq bs (exclude b bs s)
    ∙ ap (post_all (pairs bs)) (exclude-eq b bs s)
    ∙ sym (post_all-append (against b bs) (pairs bs) s)

pairs_refs : (n : ℕ) (bs : List BoolVarRef) → All (IsRef n) bs → All (All (IsRef n)) (pairs bs)
unfolding pairs
pairs_refs n [] h = tt
pairs_refs n (b ∷ bs) h = All-append _ (against b bs) (pairs bs) (go bs h.1) (pairs_refs n bs h.1)
  where
    go : (cs : List BoolVarRef) → All (IsRef n) cs → All (All (IsRef n)) (against b cs)
    go [] r = tt
    go (c ∷ cs) r = (omega (arith, abs-neg_ℤ b, abs-neg_ℤ c, h.0), go cs r.1)

module _ (n : ℕ) (v : Valuation) where
  against-true :
      (b : BoolVarRef) (bs : List BoolVarRef)
      → IsRef n b
      → All (IsRef n) bs
      → AllSome (against b bs) v
      → ref_value v b ≡ true
      → count_true v bs ≡ 0
  against-true b [] r rs p t = refl
  against-true b (c ∷ bs) r rs p t =
      ground
        (arith, p.0, against-true b bs r rs.1 p.1 t, ref_value-neg v b r, ref_value-neg v c rs.0)

  against_intro :
      (b : BoolVarRef) (bs : List BoolVarRef)
      → IsRef n b
      → All (IsRef n) bs
      → (ref_value v b ≡ true → count_true v bs ≡ 0)
      → AllSome (against b bs) v
  against_intro b [] r rs p = tt
  against_intro b (c ∷ bs) r rs p = (
    ground (arith, ref_value-neg v b r, ref_value-neg v c rs.0),
    against_intro b bs r rs.1 (λ t. omega (arith, p t)),
  )

  pairs_count :
      (bs : List BoolVarRef) → All (IsRef n) bs → AllSome (pairs bs) v → count_true v bs ≤ 1
  unfolding pairs
  pairs_count [] h p = omega arith
  pairs_count (b ∷ bs) h p =
      let (here, rest) = All-split _ (against b bs) (pairs bs) p in
      ground (arith, against-true b bs h.0 h.1 here, pairs_count bs h.1 rest)

  count_pairs :
      (bs : List BoolVarRef) → All (IsRef n) bs → count_true v bs ≤ 1 → AllSome (pairs bs) v
  unfolding pairs
  count_pairs [] h p = tt
  count_pairs (b ∷ bs) h p =
      All-append _ (against b bs) (pairs bs) (against_intro b bs h.0 h.1 (λ t. ground arith))
        (count_pairs bs h.1 (ground arith))

  any-count : (bs : List BoolVarRef) → any (ref_value v) bs ≡ true → 1 ≤ count_true v bs
  any-count [] p = ground arith
  any-count (b ∷ bs) p = ground (arith, any-count bs)

  count-any : (bs : List BoolVarRef) → 1 ≤ count_true v bs → any (ref_value v) bs ≡ true
  count-any [] p = ground arith
  count-any (b ∷ bs) p = ground (arith, count-any bs)

abbrev pub AtMostOne : List BoolVarRef → Valuation → Type 0
AtMostOne bs v = count_true v bs ≤ 1

abbrev pub ExactlyOne : List BoolVarRef → Valuation → Type 0
ExactlyOne bs v = count_true v bs ≡ 1

module _ (bs : List BoolVarRef) (s : Solver) (h : IsValid s) (refs : All (IsRef (vars s)) bs) where
  -- On a valid solver and references to its variables the clauses of `atMostOne` mean that at most
  -- one of the references is true.
  pub at_most_one-Encodes : Encodes s (at_most_one bs s) (AtMostOne bs) (AtMostOne bs)
  at_most_one-Encodes = rw (at_most_one-eq bs s) (
      Encodes_map (post_all-Encodes (pairs bs) s h (pairs_refs (vars s) bs refs))
        (λ v. count_pairs (vars s) v bs refs) (λ v. pairs_count (vars s) v bs refs))

  -- On a valid solver and references to its variables the clauses of `exactlyOne` mean that exactly
  -- one of the references is true.
  pub exactly_one-Encodes : Encodes s (exactly_one bs s) (ExactlyOne bs) (ExactlyOne bs)
  unfolding exactly_one post_all
  exactly_one-Encodes = rw (at_most_one-eq bs (at_least_one bs s)) (
      Encodes_map (post_all-Encodes (bs ∷ pairs bs) s h (refs, pairs_refs (vars s) bs refs))
        (λ v p.
          (count-any (vars s) v bs (omega arith), count_pairs (vars s) v bs refs (omega arith)))
        (λ v q. omega (arith, any-count (vars s) v bs q.0, pairs_count (vars s) v bs refs q.1)))
