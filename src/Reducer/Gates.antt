-- ===== src/Reducer/Gates.antt =====
-- The clauses of core/LexImplicationsReducer.cc for a pair and for an implication.
use phd_thesis_src.Prelude.{
  ℕ, zero, suc, ◌-◌, abs-neg_ℤ, subst, ◌<◌, ◌≤◌, ◌≡◌, refl, ap, true, iff, List, [], ◌∷◌, ◌++◌, ℤ,
  pos, arith, abs, All, All-append, any, length, Option-cases, inl, inr, Returns,
}
use phd_thesis_src.Sat.Semantics.{Valuation}
use phd_thesis_src.Order.{implied_at}
use phd_thesis_src.Constraints.{neg}
use phd_thesis_src.Constraints.Semantics.{
  ref_value, values, IsRef, EntryHolds, IsEntry, ref_value-neg,
}
use phd_thesis_src.Constraints.IffCache.{find, find-All}
use phd_thesis_src.Reducer.Construct.{LexImplicationsReducer}
use phd_thesis_src.Reducer.Clauses.{
  iff_clauses, remember, tseiten_pair, tseiten_pairs, iff_reif, implication_clause,
}
use phd_thesis_src.Reducer.Cache.{
  Numbered, Entries, Grows, Grows-refl, Grows-trans, Numbered-lt, Numbered-IsEntry,
}

-- A clause holds, and no literal is zero, which would end the line.
abbrev pub Holds : Valuation → List ℤ → Type 0
Holds v c = any (ref_value v) c ≡ true

abbrev pub IsClause : List ℤ → Type 0
IsClause c = All (λ l. 0 < abs l) c

-- The clauses follow from the entries of the cache.
abbrev Follow : LexImplicationsReducer → List (List ℤ) → Type 0
Follow r cs = (v : Valuation) → Entries v r → All (Holds v) cs

module _ (m : ℕ) (a b : ℤ) (r : LexImplicationsReducer) (ra : IsRef m a) (rb : IsRef m b)
    (ids : Numbered m r.next_bool_id r.iff_reif_cache) where
  below : m < r.next_bool_id
  below = Numbered-lt m r.next_bool_id r.iff_reif_cache ids

  at_suc : Numbered m (suc (r.next_bool_id - 1)) r.iff_reif_cache
  at_suc =
      let e : r.next_bool_id ≡ suc (r.next_bool_id - 1) = omega (arith, below) in
      subst (λ k. Numbered m k r.iff_reif_cache) e ids

  remember-Grows : Grows m r (remember a b r)
  remember-Grows = record {
    matrix = refl;
    index = refl;
    subgraph = refl;
    ids = (r.next_bool_id - 1, ap pos (omega (arith, below)), omega (arith, below), ra, rb, at_suc);
    older = λ v e. e.1;
  }

  entries : All (IsEntry (r.next_bool_id - 1)) r.iff_reif_cache
  entries = Numbered-IsEntry m (r.next_bool_id - 1) r.iff_reif_cache at_suc

  -- The number of a pair stands for its equality.
  abbrev pub IffResult : ℤ × LexImplicationsReducer → Type 0
  IffResult q =
      (0 < abs q.0)
      × Grows m r q.1
      × ((v : Valuation) → Entries v q.1 → ref_value v q.0 ≡ iff (ref_value v a) (ref_value v b))

  iff_reif-IffResult : IffResult (iff_reif a b r)
  unfolding iff_reif
  iff_reif-IffResult = elim (Option-cases (find a b r.iff_reif_cache)) [
    | inr (t, e) ↦
        let ref = find-All (IsEntry (r.next_bool_id - 1)) a b t r.iff_reif_cache e entries in
        rw (e, iff_reif)
          (
            omega (arith, ref.2),
            Grows-refl m r ids,
            λ v h. find-All (EntryHolds v) a b t r.iff_reif_cache e h,
          )
    | inl e ↦ elim (Option-cases (find b a r.iff_reif_cache)) [
      | inr (t, e') ↦
          let ref = find-All (IsEntry (r.next_bool_id - 1)) b a t r.iff_reif_cache e' entries in
          rw (e, iff_reif)
            (rw (e', iff_reif)
              (
                omega (arith, ref.2),
                Grows-refl m r ids,
                λ v h.
                    let swapped = find-All (EntryHolds v) b a t r.iff_reif_cache e' h in
                    ground arith,
              ))
      | inl e' ↦
          rw (e, iff_reif) (rw (e', iff_reif) (omega (arith, below), remember-Grows, λ v h. h.0))
    ]
  ]

  -- Clauses that are written, and the reducer after them.
  abbrev PairResult : List (List ℤ) × LexImplicationsReducer → Type 0
  PairResult q = All IsClause q.0 × Grows m r q.1 × Follow q.1 q.0

  none_written : PairResult ([], r)
  none_written = (tt, Grows-refl m r ids, λ v h. tt)

  -- At values where `t` stands for the equality the four clauses hold.
  iff_clauses-Holds :
      (v : Valuation) (t : ℤ)
      → 0 < abs t
      → ref_value v t ≡ iff (ref_value v a) (ref_value v b)
      → All (Holds v) (iff_clauses a b t)
  iff_clauses-Holds v t p e =
      let at_t = ref_value-neg {n = abs t} v t (p, omega arith) in
      let at_a = ref_value-neg v a ra in
      let at_b = ref_value-neg v b rb in
      (ground arith, (ground arith, (ground arith, (ground arith, tt))))

  iff_clauses-IsClause : (t : ℤ) → 0 < abs t → All IsClause (iff_clauses a b t)
  iff_clauses-IsClause t p = omega (arith, abs-neg_ℤ t, abs-neg_ℤ a, abs-neg_ℤ b)

  tseiten_pair-PairResult : PairResult (tseiten_pair a b r)
  unfolding tseiten_pair
  tseiten_pair-PairResult = elim (Option-cases (find a b r.iff_reif_cache)) [
    | inr (t, e) ↦ rw (e, tseiten_pair) none_written
    | inl e ↦ elim (Option-cases (find b a r.iff_reif_cache)) [
      | inr (t, e') ↦ rw (e, tseiten_pair) (rw (e', tseiten_pair) none_written)
      | inl e' ↦
          let p : 0 < abs (pos r.next_bool_id) = omega (arith, below) in
          rw (e, tseiten_pair)
            (rw (e', tseiten_pair)
              (
                iff_clauses-IsClause (pos r.next_bool_id) p,
                remember-Grows,
                λ v h. iff_clauses-Holds v (pos r.next_bool_id) p h.0,
              ))
    ]
  ]

-- The positions of two strings of edges.
module _ (m : ℕ) where
  -- What is written, and what it says at values where the entries of the cache hold.
  abbrev pub SetResult : LexImplicationsReducer → List (List ℤ) × LexImplicationsReducer → Type 0
  SetResult r q = All IsClause q.0 × Grows m r q.1 × Follow q.1 q.0

  -- What is written first follows still from the larger cache.
  pub SetResult-append :
      (r r₁ r₂ : LexImplicationsReducer) (cs ds : List (List ℤ))
      → SetResult r (cs, r₁)
      → SetResult r₁ (ds, r₂)
      → SetResult r (cs ++ ds, r₂)
  SetResult-append r r₁ r₂ cs ds (c, g, f) (c', g', f') = (
    All-append IsClause cs ds c c',
    Grows-trans g g',
    λ v h. All-append (Holds v) cs ds (f v (g'.older v h)) (f' v h),
  )

  pub tseiten_pairs-SetResult :
      (k : ℕ) (xs ys : List ℤ) (r : LexImplicationsReducer)
      → k ≤ length xs
      → length xs ≡ length ys
      → All (IsRef m) xs
      → All (IsRef m) ys
      → Numbered m r.next_bool_id r.iff_reif_cache
      → Returns (tseiten_pairs k xs ys r) (SetResult r)
  unfolding tseiten_pairs
  tseiten_pairs-SetResult zero xs ys r lt e rx ry ids =
      (([], r), refl, (tt, Grows-refl m r ids, λ v h. tt))
  tseiten_pairs-SetResult (suc k) [] ys r lt e rx ry ids = absurd (omega arith)
  tseiten_pairs-SetResult (suc k) (x ∷ xs) [] r lt e rx ry ids = absurd (omega arith)
  tseiten_pairs-SetResult (suc k) (x ∷ xs) (y ∷ ys) r lt e rx ry ids =
      let p = tseiten_pair x y r in
      let first = tseiten_pair-PairResult m x y r rx.0 ry.0 ids in
      let (q, run, rest) =
        tseiten_pairs-SetResult k xs ys p.1 (omega arith) (omega arith) rx.1 ry.1 first.1.ids in
      ((p.0 ++ q.0, q.1), rw run, SetResult-append r p.1 q.1 p.0 q.0 first rest)

  -- The clause that is written for an implication, and its meaning.
  abbrev pub ClauseResult :
      ℕ → List ℤ → List ℤ → LexImplicationsReducer → List ℤ × LexImplicationsReducer → Type 0
  ClauseResult k xs ys r q =
      IsClause q.0
      × Grows m r q.1
      × ((v : Valuation)
          → Entries v q.1
          → any (ref_value v) q.0 ≡ implied_at k (values v xs) (values v ys))

  pub implication_clause-ClauseResult :
      (k : ℕ) (xs ys : List ℤ) (r : LexImplicationsReducer)
      → k < length xs
      → length xs ≡ length ys
      → All (IsRef m) xs
      → All (IsRef m) ys
      → Numbered m r.next_bool_id r.iff_reif_cache
      → Returns (implication_clause k xs ys r) (ClauseResult k xs ys r)
  unfolding implication_clause
  implication_clause-ClauseResult k [] ys r lt e rx ry ids = absurd (omega arith)
  implication_clause-ClauseResult k (x ∷ xs) [] r lt e rx ry ids = absurd (omega arith)
  implication_clause-ClauseResult zero (x ∷ xs) (y ∷ ys) r lt e rx ry ids = (
    (neg x ∷ y ∷ [], r),
    refl,
    (
      (omega (arith, abs-neg_ℤ x), (omega arith, tt)),
      Grows-refl m r ids,
      λ v h. ground (arith, ref_value-neg v x rx.0),
    ),
  )
  implication_clause-ClauseResult (suc k) (x ∷ xs) (y ∷ ys) r lt e rx ry ids =
      let p = iff_reif x y r in
      let (t_pos, first, means) = iff_reif-IffResult m x y r rx.0 ry.0 ids in
      let (q, run, (clause, rest, says)) =
        implication_clause-ClauseResult k xs ys p.1 (omega arith) (omega arith) rx.1 ry.1
          first.ids in
      (
        (neg p.0 ∷ q.0, q.1),
        rw run,
        (
          (omega (arith, abs-neg_ℤ p.0), clause),
          Grows-trans first rest,
          λ v h. ground (
            arith,
            says v h,
            means v (rest.older v h),
            ref_value-neg {n = abs p.0} v p.0 (t_pos, omega arith),
          ),
        ),
      )
