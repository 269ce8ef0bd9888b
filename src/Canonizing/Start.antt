-- ===== src/Canonizing/Start.antt =====
-- The constraints of a round of core/CanonizingLexImplicationsAlg.cc before its search.
use phd_thesis_src.Prelude.{
  ℕ, suc, ◌-◌, ◌<◌, ◌≤◌, ◌≡◌, refl, sym, ap, ap₂, ◌∙◌, true, List, [], ◌∷◌, arith, All, length,
  Returns,
}
use phd_thesis_src.Sat.Semantics.{Valuation}
use phd_thesis_src.Order.{Graph, implied_at, less_at}
use phd_thesis_src.Matrix.{Matrix, image}
use phd_thesis_src.Matrix.Permute.{Maps, IsInjective, image-lt}
use phd_thesis_src.Matrix.Strings.{IsTable, permuted}
use phd_thesis_src.Constraints.{BoolVarRef, Solver}
use phd_thesis_src.Constraints.Semantics.{IsRef-mono, Agree, vars, IsValid, values_congr}
use phd_thesis_src.Constraints.Encodes.{Encodes, Encodes_then, Encodes_map, unchanged}
use phd_thesis_src.Constraints.Lex.Implication.{bool_arrays_lex_lt_implication-Encodes}
use phd_thesis_src.Constraints.Graphs.Pairs.{table}
use phd_thesis_src.Canonizing.{
  CanonicalIndexing, LexImplication, Round, impose, encode_set, start_round,
}
use phd_thesis_src.Canonizing.SetUp.{SetUpResult, set_up-SetUpResult}
use phd_thesis_src.Canonizing.Impose.{
  cells_of, string, AreRefs, Meets, indexing-string, values-at_cells, string-refs, length-string,
  impose-Encodes,
}

module _ (index : CanonicalIndexing) (n : ℕ) where
  -- An implication for graphs of n vertices, and a graph that meets it.
  abbrev pub IsImplication : LexImplication → Type 0
  IsImplication x =
      Maps n x.perm
      × (0 < x.length)
      × (x.length ≤ length (cells_of index n))
      × (length x.perm ≤ n)
      × IsInjective n x.perm

  abbrev pub MeetsImplication : Graph → LexImplication → Type 0
  MeetsImplication e x = Meets index n (x.length - 1) x.perm e

  abbrev pub MeetsAll : List LexImplication → Graph → Type 0
  MeetsAll xs e = All (MeetsImplication e) xs

  pub AreRefs-mono :
      (s s' : Solver) (x : ℕ → ℕ → BoolVarRef) → vars s ≤ vars s' → AreRefs n s x → AreRefs n s' x
  AreRefs-mono s s' x grows h i j p q = IsRef-mono (x i j) grows (h i j p q)

  pub string_congr :
      (s : Solver) (x : ℕ → ℕ → BoolVarRef) (v w : Valuation)
      → AreRefs n s x
      → Agree (vars s) v w
      → string index n (table v x) ≡ string index n (table w x)
  string_congr s x v w h agree =
      sym (values-at_cells v x (cells_of index n))
      ∙ values_congr v w agree (string index n x) (string-refs index n s x h)
      ∙ values-at_cells w x (cells_of index n)

  pub Meets-congr :
      (s : Solver) (x : ℕ → ℕ → BoolVarRef) (k : ℕ) (perm : List ℕ) (v w : Valuation)
      → AreRefs n s x
      → Maps n perm
      → Agree (vars s) v w
      → Meets index n k perm (table v x)
      → Meets index n k perm (table w x)
  Meets-congr s x k perm v w h maps agree m =
      ap₂ (λ a b. implied_at k a b) (sym (string_congr s x v w h agree))
        (sym (
          string_congr s (permuted perm x) v w
            (λ i j p q.
              h (image perm i) (image perm j) (image-lt n i perm maps p) (image-lt n j perm maps q))
            agree))
      ∙ m

  pub MeetsAll-congr :
      (s : Solver) (x : ℕ → ℕ → BoolVarRef) (v w : Valuation)
      → AreRefs n s x
      → Agree (vars s) v w
      → (xs : List LexImplication) → All IsImplication xs
      → MeetsAll xs (table v x)
      → MeetsAll xs (table w x)
  MeetsAll-congr s x v w h agree [] r m = tt
  MeetsAll-congr s x v w h agree (y ∷ ys) r m = (
    Meets-congr s x (y.length - 1) y.perm v w h r.0.0 agree m.0,
    MeetsAll-congr s x v w h agree ys r.1 m.1,
  )

  -- The loops that encode a set: the graph meets each implication of the set, and nothing else.
  pub encode_set-Encodes :
      (g : Matrix BoolVarRef) (x : ℕ → ℕ → BoolVarRef) (xs : List LexImplication) (s : Solver)
      → IsValid s
      → IsTable n g x
      → AreRefs n s x
      → All IsImplication xs
      → Returns
          (encode_set index g (string index n x) xs s)
          λ s'. Encodes s s' (λ v. MeetsAll xs (table v x)) (λ v. MeetsAll xs (table v x))
  unfolding encode_set
  encode_set-Encodes g x [] s h t refs r =
      (s, refl, Encodes_map (unchanged s h) (λ v p. tt) (λ v q. tt))
  encode_set-Encodes g x (y ∷ ys) s h t refs r =
      let k = y.length - 1 in
      let same : suc k ≡ y.length = omega arith in
      let (s₁, run₁, step) = impose-Encodes index n g x y.perm k s h t refs r.0.0 (omega arith) in
      let (s₂, run₂, rest) =
        encode_set-Encodes g x ys s₁ step.valid t (AreRefs-mono s s₁ x step.grows refs) r.1 in
      (
        s₂,
        rw (ap (λ l. impose index g (string index n x) y.perm l s) (sym same) ∙ run₁) run₂,
        Encodes_map
            (Encodes_then (λ v. MeetsAll (y ∷ ys) (table v x)) step rest (λ v p. p.0)
              (λ v w p agree q. MeetsAll-congr s x v w refs agree ys r.1 p.1))
            (λ v p. p) (λ v q. q),
      )

  -- The string of the second graph is less at position k.
  abbrev LessString : ℕ → Graph → Graph → Type 0
  LessString k f e = less_at k (string index n f) (string index n e) ≡ true

  abbrev pub RoundModel :
      ℕ → (Graph → Type 0) → (ℕ → ℕ → BoolVarRef) → (ℕ → ℕ → BoolVarRef) → Valuation → Type 0
  RoundModel k Before x1 x2 v = LessString k (table v x2) (table v x1) × Before (table v x1)

  pub record StartResult (k : ℕ) (before : List LexImplication)
      (r : Round × List BoolVarRef × Solver) : Type 0 where
    pub set_up : SetUpResult n r.0
    pub string1 : r.1 ≡ string index n set_up.x1
    pub step :
        Encodes r.0.solver r.2
          (RoundModel k (MeetsAll before) set_up.x1 set_up.x2)
          (RoundModel k (MeetsAll before) set_up.x1 set_up.x2)

  -- For n > 0, a length from 1 to that of the strings and a set of implications for n vertices the
  -- constraints of a round are posted on any solver. Its models are those of the start of a round
  -- where the string of the permuted graph is less than that of the graph at that position, and the
  -- graph meets the set.
  pub start_round-StartResult :
      (k : ℕ) (before : List LexImplication) (s : Solver)
      → 0 < n
      → k < length (cells_of index n)
      → All IsImplication before
      → Returns (start_round index n (suc k) before s) (StartResult k before)
  unfolding start_round
  start_round-StartResult k before s pos_n lt r =
      let (u, run, a) = set_up-SetUpResult n s pos_n in
      let refs1 = λ (i j : ℕ) (p : i < n) (q : j < n). (a.given.cells1 i j p q).ref in
      let refs2 = λ (i j : ℕ) (p : i < n) (q : j < n). (a.given.cells2 i j p q).ref in
      let str1 = string index n a.x1 in
      let str2 = string index n a.x2 in
      let (s₁, run₁, less) =
        bool_arrays_lex_lt_implication-Encodes k str2 str1 u.solver a.given.valid
          (omega (arith, length-string index n a.x2))
          (length-string index n a.x2 ∙ sym (length-string index n a.x1))
          (string-refs index n u.solver a.x2 refs2) (string-refs index n u.solver a.x1 refs1) in
      let (s₂, run₂, rest) =
        encode_set-Encodes u.g1 a.x1 before s₁ less.valid a.table1
          (AreRefs-mono u.solver s₁ a.x1 less.grows refs1) r in
      let same = λ (v : Valuation).
        ap₂ (λ b c. less_at k b c) (values-at_cells v a.x2 (cells_of index n))
          (values-at_cells v a.x1 (cells_of index n)) in
      (
        (u, str1, s₂),
        rw run (
            rw (indexing-string index n u.g1 a.x1 a.table1)
              (rw (indexing-string index n u.g2 a.x2 a.table2) (rw run₁ (rw run₂ refl)))),
        record {
          set_up = a;
          string1 = refl;
          step =
              Encodes_map
                (Encodes_then (RoundModel k (MeetsAll before) a.x1 a.x2) less rest
                  (λ v p. same v ∙ p.0)
                  (λ v w p agree q. MeetsAll-congr u.solver a.x1 v w refs1 agree before r p.1))
                (λ v p. p) (λ v q. (sym (same v) ∙ q.0, q.1));
        },
      )
