-- ===== src/Reducer/Files.antt =====
-- The clauses in the files of core/LexImplicationsReducer.cc and what they mean.
use phd_thesis_src.Prelude.{
  ℕ, zero, suc, subst, ◌-◌, ◌<◌, ◌≤◌, ◌≡◌, refl, sym, ◌∙◌, true, List, [], ◌∷◌, ◌++◌, ℤ, arith, All,
  All-append, any, length, Returns,
}
use phd_thesis_src.Sat.Semantics.{Valuation}
use phd_thesis_src.Matrix.{Matrix}
use phd_thesis_src.Matrix.Strings.{IsTable, permuted}
use phd_thesis_src.Constraints.Semantics.{ref_value, IsRef}
use phd_thesis_src.Canonizing.{CanonicalIndexing, LexImplication}
use phd_thesis_src.Canonizing.Impose.{cells_of, string}
use phd_thesis_src.Canonizing.Start.{IsImplication}
use phd_thesis_src.Reducer.Construct.{LexImplicationsReducer}
use phd_thesis_src.Reducer.Clauses.{
  implication_clause, bool_arrays_lex_implication, tseiten_set, given_set, clause_set,
  tseiten_pairs,
}
use phd_thesis_src.Reducer.Cache.{Numbered, Entries, Grows, Grows-refl, Grows-trans}
use phd_thesis_src.Reducer.Gates.{
  Holds, IsClause, SetResult, SetResult-append, tseiten_pairs-SetResult, ClauseResult,
  implication_clause-ClauseResult,
}
use phd_thesis_src.Reducer.Strings.{
  Off, Has, implied, length-string, string-IsRef, permuted-IsRef, permuted_string_lem,
}

module _ (index : CanonicalIndexing) (n m : ℕ) (g : Matrix ℤ) (x : ℕ → ℕ → ℤ) (t : IsTable n g x)
    (refs : Off n (λ i j. IsRef m (x i j))) where
  -- A reducer whose matrix has the numbers `x`.
  abbrev pub IsReady : LexImplicationsReducer → Type 0
  IsReady r = Has index g r × Numbered m r.next_bool_id r.iff_reif_cache

  pub Grows-IsReady : (r r' : LexImplicationsReducer) → IsReady r → Grows m r r' → IsReady r'
  Grows-IsReady r r' (has, ids) a = ((a.matrix ∙ has.0, a.index ∙ has.1), a.ids)

  abbrev here : List ℤ
  here = string index n x

  abbrev there : LexImplication → List ℤ
  there y = string index n (permuted y.perm x)

  sizes : (y : LexImplication) → length here ≡ length (there y)
  sizes y =
      length-string index n m g x t refs x
      ∙ sym (length-string index n m g x t refs (permuted y.perm x))

  tseiten_of :
      (y : LexImplication) (r : LexImplicationsReducer)
      → IsImplication index n y
      → IsReady r
      → Returns (tseiten_pairs (y.length - 1) here (there y) r) (SetResult m r)
  tseiten_of y r h ready =
      tseiten_pairs-SetResult m (y.length - 1) here (there y) r
        (omega (arith, h.2, length-string index n m g x t refs x)) (sizes y)
        (string-IsRef index n m g x t refs) (permuted-IsRef index n m g x t refs y.perm h.0 h.4)
        ready.1

  clause_of :
      (y : LexImplication) (r : LexImplicationsReducer)
      → IsImplication index n y
      → IsReady r
      → Returns
          (bool_arrays_lex_implication here (there y) y.length r)
          (ClauseResult m (y.length - 1) here (there y) r)
  unfolding bool_arrays_lex_implication
  clause_of y r h ready = go y.length h.1 h.2
    where
      go :
          (k : ℕ)
          → 0 < k
          → k ≤ length (cells_of index n)
          → Returns
              (bool_arrays_lex_implication here (there y) k r)
              (ClauseResult m (k - 1) here (there y) r)
      go zero p q = absurd (omega arith)
      go (suc k) p q =
          let e : k ≡ suc k - 1 = omega arith in
          subst
            (λ j.
              Returns (implication_clause k here (there y) r) (ClauseResult m j here (there y) r))
            e
            (implication_clause-ClauseResult m k here (there y) r
              (omega (arith, length-string index n m g x t refs x)) (sizes y)
              (string-IsRef index n m g x t refs)
              (permuted-IsRef index n m g x t refs y.perm h.0 h.4) ready.1)

  pub tseiten_set-SetResult :
      (ys : List LexImplication) (r : LexImplicationsReducer)
      → All (IsImplication index n) ys
      → IsReady r
      → Returns (tseiten_set here ys r) (SetResult m r)
  unfolding tseiten_set
  tseiten_set-SetResult [] r h ready = (([], r), refl, (tt, Grows-refl m r ready.1, λ v e. tt))
  tseiten_set-SetResult (y ∷ ys) r h ready =
      let (p, run, first) = tseiten_of y r h.0 ready in
      let (q, run', rest) = tseiten_set-SetResult ys p.1 h.1 (Grows-IsReady r p.1 ready first.1) in
      (
        (p.0 ++ q.0, q.1),
        rw (permuted_string_lem index n m g x t refs r y.perm ready.0 h.0.0)
            (rw run (rw run' refl)),
        SetResult-append m r p.1 q.1 p.0 q.0 first rest,
      )

  -- One clause for each implication, true exactly where it holds.
  abbrev pub Says : Valuation → List LexImplication → List (List ℤ) → Type 0
  Says v [] [] = Unit
  Says v (y ∷ ys) (c ∷ cs) = (any (ref_value v) c ≡ implied index n x v y) × Says v ys cs
  Says v ys cs = ⊥

  abbrev pub ClausesResult :
      List LexImplication → LexImplicationsReducer → List (List ℤ) × LexImplicationsReducer → Type 0
  ClausesResult ys r q =
      All IsClause q.0 × Grows m r q.1 × ((v : Valuation) → Entries v q.1 → Says v ys q.0)

  pub clause_set-ClausesResult :
      (ys : List LexImplication) (r : LexImplicationsReducer)
      → All (IsImplication index n) ys
      → IsReady r
      → Returns (clause_set here ys r) (ClausesResult ys r)
  unfolding clause_set
  clause_set-ClausesResult [] r h ready = (([], r), refl, (tt, Grows-refl m r ready.1, λ v e. tt))
  clause_set-ClausesResult (y ∷ ys) r h ready =
      let (c, run, (clause, first, says)) = clause_of y r h.0 ready in
      let (q, run', (clauses, rest, say)) =
        clause_set-ClausesResult ys c.1 h.1 (Grows-IsReady r c.1 ready first) in
      (
        (c.0 ∷ q.0, q.1),
        rw (permuted_string_lem index n m g x t refs r y.perm ready.0 h.0.0)
            (rw run (rw run' refl)),
        ((clause, clauses), Grows-trans first rest, λ v e. (says v (rest.older v e), say v e)),
      )

  -- The clauses that are written for the given set hold where its implications do.
  abbrev GivenResult :
      List LexImplication → LexImplicationsReducer → List (List ℤ) × LexImplicationsReducer → Type 0
  GivenResult ys r q =
      All IsClause q.0
      × Grows m r q.1
      × ((v : Valuation)
          → Entries v q.1
          → All (λ y. implied index n x v y ≡ true) ys
          → All (Holds v) q.0)

  pub given_set-GivenResult :
      (ys : List LexImplication) (r : LexImplicationsReducer)
      → All (IsImplication index n) ys
      → IsReady r
      → Returns (given_set here ys r) (GivenResult ys r)
  unfolding given_set
  given_set-GivenResult [] r h ready = (([], r), refl, (tt, Grows-refl m r ready.1, λ v e i. tt))
  given_set-GivenResult (y ∷ ys) r h ready =
      let (p, run, pairs) = tseiten_of y r h.0 ready in
      let ready' = Grows-IsReady r p.1 ready pairs.1 in
      let (c, run', (clause, first, says)) = clause_of y p.1 h.0 ready' in
      let (q, run'', (clauses, rest, follow)) =
        given_set-GivenResult ys c.1 h.1 (Grows-IsReady p.1 c.1 ready' first) in
      (
        (p.0 ++ (c.0 ∷ q.0), q.1),
        rw (permuted_string_lem index n m g x t refs r y.perm ready.0 h.0.0)
            (rw run (rw run' (rw run'' refl))),
        (
          All-append IsClause p.0 (c.0 ∷ q.0) pairs.0 (clause, clauses),
          Grows-trans pairs.1 (Grows-trans first rest),
          λ v e i.
              let e' = rest.older v e in
              All-append (Holds v) p.0 (c.0 ∷ q.0) (pairs.2 v (first.older v e'))
                (says v e' ∙ i.0, follow v e i.1),
        ),
      )
