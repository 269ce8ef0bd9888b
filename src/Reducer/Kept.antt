-- ===== src/Reducer/Kept.antt =====
-- `reduce` and `reduceDelta` of core/LexImplicationsReducer.cc: the implications that are kept imply
-- those that are not.
use phd_thesis_src.Prelude.{
  ℕ, zero, suc, ◌<◌, ◌≡◌, refl, sym, ap, ◌∙◌, subst, Bool, true, List, [], ◌∷◌, ℤ, arith, All,
  length, get_elem?, get_or, some, Returns,
}
use phd_thesis_src.Text.{Bytes}
use phd_thesis_src.Sat.Semantics.{Valuation}
use phd_thesis_src.Order.{Graph, IsGraph}
use phd_thesis_src.Matrix.{Matrix}
use phd_thesis_src.Matrix.Strings.{IsTable}
use phd_thesis_src.Constraints.Semantics.{IsRef, ref_value_congr}
use phd_thesis_src.Canonizing.{CanonicalIndexing, LexImplication}
use phd_thesis_src.Canonizing.Start.{IsImplication, MeetsAll}
use phd_thesis_src.Reducer.Construct.{LexImplicationsReducer}
use phd_thesis_src.Reducer.Texts.{
  Tool, command, header_text, clauses_text, read_indices, run_reducer, select,
}
use phd_thesis_src.Reducer.Cache.{Entries, Entries_model}
use phd_thesis_src.Reducer.Gates.{Holds, IsClause}
use phd_thesis_src.Reducer.Strings.{Off, ShowsGraph, implied, implied-MeetsImplication}
use phd_thesis_src.Reducer.Files.{Says, ClausesResult}
use phd_thesis_src.Reducer.Output.{
  indices_text, read_indices-indices_text, Chosen, done, next, select-Chosen, Chosen-All,
}

-- The clause at a position.
abbrev pub clause_at : List (List ℤ) → ℕ → List ℤ
clause_at cs k = get_or cs k []

-- What the external program answers to the two files: the numbers of clauses of the second file
-- from which, with the first file, all its clauses follow.
pub record KeptBy (tool : Tool) (line : Bytes) (ts imp : List (List ℤ)) (vars clauses : ℕ)
    : Type 0 where
  pub ks : List ℕ
  pub text :
      tool line (clauses_text ts []) (header_text vars clauses (clauses_text imp []))
      ≡ indices_text ks
  pub inside : All (λ k. k < length imp) ks
  pub implies :
      (v : Valuation)
      → All (Holds v) ts
      → All (λ k. Holds v (clause_at imp k)) ks
      → All (Holds v) imp

-- It does so for all clauses that are written with nonzero literals.
abbrev pub IsSound : Tool → Type 0
IsSound tool =
    (line : Bytes) (ts imp : List (List ℤ)) (vars clauses : ℕ)
    → All IsClause ts
    → All IsClause imp
    → KeptBy tool line ts imp vars clauses

-- On the graphs of the context the second set follows from the first one.
abbrev pub ImpliesIn :
    CanonicalIndexing → ℕ → (Graph → Type 0) → List LexImplication → List LexImplication → Type 0
ImpliesIn index n Context ys xs =
    (e : Graph) → IsGraph n e → Context e → MeetsAll index n ys e → MeetsAll index n xs e

module _ (index : CanonicalIndexing) (n m : ℕ) (g : Matrix ℤ) (x : ℕ → ℕ → ℤ) (t : IsTable n g x)
    (refs : Off n (λ i j. IsRef m (x i j))) where
  abbrev Implied : Valuation → LexImplication → Type 0
  Implied v y = implied index n x v y ≡ true

  Implied-MeetsAll :
      (v : Valuation) (e : Graph) (ys : List LexImplication)
      → ShowsGraph n x v e
      → All (IsImplication index n) ys
      → All (Implied v) ys
      → MeetsAll index n ys e
  Implied-MeetsAll v e [] shows h p = tt
  Implied-MeetsAll v e (y ∷ ys) shows h p = (
    subst (λ (T : Type 0). T) (implied-MeetsImplication index n m g x t refs v e y shows h.0) p.0,
    Implied-MeetsAll v e ys shows h.1 p.1,
  )

  pub MeetsAll-Implied :
      (v : Valuation) (e : Graph) (ys : List LexImplication)
      → ShowsGraph n x v e
      → All (IsImplication index n) ys
      → MeetsAll index n ys e
      → All (Implied v) ys
  MeetsAll-Implied v e [] shows h p = tt
  MeetsAll-Implied v e (y ∷ ys) shows h p = (
    subst (λ (T : Type 0). T) (sym (implied-MeetsImplication index n m g x t refs v e y shows h.0))
        p.0,
    MeetsAll-Implied v e ys shows h.1 p.1,
  )

  abbrev Say : Valuation → List LexImplication → List (List ℤ) → Type 0
  Say v ys cs = Says index n m g x t refs v ys cs

  length-Says :
      (v : Valuation) (ys : List LexImplication) (cs : List (List ℤ))
      → Say v ys cs
      → length cs ≡ length ys
  length-Says v [] [] s = refl
  length-Says v (y ∷ ys) (c ∷ cs) s = ap suc (length-Says v ys cs s.1)
  length-Says v [] (c ∷ cs) s = elim s [ ]
  length-Says v (y ∷ ys) [] s = elim s [ ]

  Says-All :
      (v : Valuation) (ys : List LexImplication) (cs : List (List ℤ))
      → Say v ys cs
      → All (Holds v) cs
      → All (Implied v) ys
  Says-All v [] [] s h = tt
  Says-All v (y ∷ ys) (c ∷ cs) s h = (sym s.0 ∙ h.0, Says-All v ys cs s.1 h.1)
  Says-All v [] (c ∷ cs) s h = elim s [ ]
  Says-All v (y ∷ ys) [] s h = elim s [ ]

  Says_at :
      (v : Valuation) (ys : List LexImplication) (cs : List (List ℤ)) (k : ℕ) (y : LexImplication)
      → Say v ys cs
      → get_elem? ys k ≡ some y
      → Implied v y
      → Holds v (clause_at cs k)
  Says_at v [] cs k y s e h = absurd (cc e)
  Says_at v (z ∷ ys) [] k y s e h = elim s [ ]
  Says_at v (z ∷ ys) (c ∷ cs) zero y s e h =
      let same : y ≡ z = ground arith in s.0 ∙ subst (Implied v) same h
  Says_at v (z ∷ ys) (c ∷ cs) (suc k) y s e h = Says_at v ys cs k y s.1 e h

  Chosen-Holds :
      (v : Valuation) (xs : List LexImplication) (cs : List (List ℤ)) {ks : List ℕ}
      {ys : List LexImplication}
      → Say v xs cs
      → Chosen xs ks ys
      → All (Implied v) ys
      → All (λ k. Holds v (clause_at cs k)) ks
  Chosen-Holds v xs cs s done h = tt
  Chosen-Holds v xs cs s (next {k} {x = z} e rest) h =
      (Says_at v xs cs k z s e h.0, Chosen-Holds v xs cs s rest h.1)

  -- What is written, the answer of the program and the choice, from reducer `r` on. `ts` are the
  -- clauses of the first file, which hold on the graphs of the context.
  module _ (tool : Tool) (sound : IsSound tool) (Context : Graph → Type 0)
      (xs : List LexImplication) (xs_ok : All (IsImplication index n) xs)
      (shows : (e : Graph) → IsGraph n e → (v : Valuation) × ShowsGraph n x v e)
      (r : LexImplicationsReducer) (ts : List (List ℤ)) (vars clauses : ℕ) (ts_ok : All IsClause ts)
      (follow : (v : Valuation) (e : Graph)
        → Entries v r
        → ShowsGraph n x v e
        → Context e
        → All (Holds v) ts)
      (c : List (List ℤ) × LexImplicationsReducer)
      (written : ClausesResult index n m g x t refs xs r c) where
    abbrev kept : KeptBy tool (command c.1) ts c.0 vars clauses
    kept = sound (command c.1) ts c.0 vars clauses ts_ok written.0

    abbrev imp_text : Bytes
    imp_text = header_text vars clauses (clauses_text c.0 [])

    -- Values of the numbers for a graph.
    model : (e : Graph) → IsGraph n e → (v : Valuation) × ShowsGraph n x v e × Entries v c.1
    model e graph =
        let (v, shown) = shows e graph in
        let (w, agree, held) =
          Entries_model m c.1.next_bool_id c.1.iff_reif_cache v written.1.ids in
        (
          w,
          λ i j p q ne.
              sym (ref_value_congr v w (x i j) agree (refs i j p q ne)) ∙ shown i j p q ne,
          held,
        )

    Chosen-ImpliesIn :
        (ys : List LexImplication)
        → Chosen xs kept.ks ys
        → All (IsImplication index n) ys
        → ImpliesIn index n Context ys xs
    Chosen-ImpliesIn ys chosen ys_ok e graph context meets_ys =
        let (v, shown, held) = model e graph in
        let says = written.2 v held in
        let first = follow v e (written.1.older v held) shown context in
        let second =
          Chosen-Holds v xs c.0 says chosen (MeetsAll-Implied v e ys shown ys_ok meets_ys) in
        Implied-MeetsAll v e xs shown xs_ok (Says-All v xs c.0 says (kept.implies v first second))

    pub select-ImpliesIn :
        Returns
          (select xs (run_reducer tool c.1 (clauses_text ts []) imp_text))
          λ ys. All (IsImplication index n) ys × ImpliesIn index n Context ys xs
    unfolding run_reducer
    select-ImpliesIn =
        let (v, _, held) =
          Entries_model m c.1.next_bool_id c.1.iff_reif_cache (λ q. Bool.false) written.1.ids in
        let same = length-Says v xs c.0 (written.2 v held) in
        let (ys, run, chosen) =
          select-Chosen xs kept.ks (subst (λ k. All (λ j. j < k) kept.ks) same kept.inside) in
        let ys_ok = Chosen-All (IsImplication index n) xs chosen xs_ok in
        (
          ys,
          ap (λ text. select xs (read_indices text)) kept.text
              ∙ ap (select xs) (read_indices-indices_text kept.ks)
              ∙ run,
          (ys_ok, Chosen-ImpliesIn ys chosen ys_ok),
        )
