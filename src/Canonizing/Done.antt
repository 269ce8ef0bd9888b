-- ===== src/Canonizing/Done.antt =====
-- When the search of a round finds no more model.
use phd_thesis_src.Prelude.{
  ℕ, ◌-◌, ◌<◌, ◌==◌, ◌≡◌, refl, sym, ap, ap₂, ◌∙◌, false, not, List, [], ◌∷◌, arith, All,
  Bool-cases, inl, inr,
}
use phd_thesis_src.Sat.Semantics.{Valuation}
use phd_thesis_src.Order.{Graph, IsGraph, implied_at, less_at, implied_at-less_at}
use phd_thesis_src.Matrix.{image}
use phd_thesis_src.Matrix.Cells.{InRange}
use phd_thesis_src.Matrix.Permute.{Maps, image-lt}
use phd_thesis_src.Matrix.Strings.{at_cells, permuted}
use phd_thesis_src.Constraints.{Solver}
use phd_thesis_src.Constraints.Semantics.{holds}
use phd_thesis_src.Constraints.Encodes.{Encodes}
use phd_thesis_src.Constraints.Graphs.Filled.{SameGraph}
use phd_thesis_src.Constraints.Graphs.Pairs.{table}
use phd_thesis_src.Constraints.Graphs.Tally.{IsPerm}
use phd_thesis_src.Constraints.Graphs.Isomorphism.{IsPermutedBy}
use phd_thesis_src.Canonizing.{CanonicalIndexing, LexImplication, Round}
use phd_thesis_src.Canonizing.SetUp.{SetUpResult}
use phd_thesis_src.Canonizing.Impose.{cells_of, string, cells_of-InRange, Meets}
use phd_thesis_src.Canonizing.Start.{IsImplication, MeetsAll, RoundModel}

-- A permutation of the first n numbers, as a vector.
abbrev pub IsPermutation : ℕ → List ℕ → Type 0
IsPermutation n perm = Maps n perm × IsPerm n (λ k i. image perm k == i)

at_cells_congr :
    (n : ℕ) (e f : Graph) (cs : List (ℕ × ℕ))
    → SameGraph n e f
    → All (InRange n n) cs
    → at_cells e cs ≡ at_cells f cs
at_cells_congr n e f [] same r = refl
at_cells_congr n e f (c ∷ cs) same r =
    ap₂ (λ a b. a ∷ b) (same c.0 c.1 r.0.0 r.0.1) (at_cells_congr n e f cs same r.1)

module _ (index : CanonicalIndexing) (n : ℕ) where
  pub string_congr : (e f : Graph) → SameGraph n e f → string index n e ≡ string index n f
  string_congr e f same = at_cells_congr n e f (cells_of index n) same (cells_of-InRange index n)

  pub permuted_congr :
      (e f : Graph) (perm : List ℕ)
      → SameGraph n e f
      → Maps n perm
      → SameGraph n (permuted perm e) (permuted perm f)
  permuted_congr e f perm same maps i j p q =
      same (image perm i) (image perm j) (image-lt n i perm maps p) (image-lt n j perm maps q)

  Meets-same :
      (e f : Graph) (k : ℕ) (perm : List ℕ)
      → SameGraph n e f
      → Maps n perm
      → Meets index n k perm e
      → Meets index n k perm f
  Meets-same e f k perm same maps h =
      ap₂ (λ a b. implied_at k a b) (sym (string_congr e f same))
        (sym (string_congr (permuted perm e) (permuted perm f) (permuted_congr e f perm same maps)))
      ∙ h

  pub MeetsAll-same :
      (e f : Graph) (xs : List LexImplication)
      → SameGraph n e f
      → All (IsImplication index n) xs
      → MeetsAll index n xs e
      → MeetsAll index n xs f
  MeetsAll-same e f [] same r h = tt
  MeetsAll-same e f (x ∷ xs) same r h =
      (Meets-same e f (x.length - 1) x.perm same r.0.0 h.0, MeetsAll-same e f xs same r.1 h.1)

  pub permuted-IsGraph :
      (e : Graph) (perm : List ℕ) → IsGraph n e → Maps n perm → IsGraph n (permuted perm e)
  permuted-IsGraph e perm g maps = record {
    no_loops = λ i lt. g.no_loops (image perm i) (image-lt n i perm maps lt);
    symmetric = λ i j p q.
        g.symmetric (image perm i) (image perm j) (image-lt n i perm maps p)
          (image-lt n j perm maps q);
  }

  pub IsPermutedBy-permuted :
      (e : Graph) (perm : List ℕ) → IsPermutedBy n (λ k i. image perm k == i) e (permuted perm e)
  IsPermutedBy-permuted e perm k l i j lk ll li lj hk hl =
      let at_k : image perm k ≡ i = ground arith in
      let at_l : image perm l ≡ j = ground arith in ap₂ e at_k at_l

  -- Where the constraints of a round and a further set have no model, every graph that meets the
  -- sets meets the implication of the round for every permutation.
  pub no_model-Meets :
      {u : Round} (a : SetUpResult n u) (k : ℕ) (Before : Graph → Type 0)
      (new : List LexImplication) (s : Solver)
      → Encodes u.solver s
          (λ v. RoundModel index n k Before a.x1 a.x2 v × MeetsAll index n new (table v a.x1))
          (λ v. RoundModel index n k Before a.x1 a.x2 v × MeetsAll index n new (table v a.x1))
      → ((v : Valuation) → holds v s ≡ false)
      → ((e f : Graph) → SameGraph n e f → Before e → Before f)
      → All (IsImplication index n) new
      → (e : Graph) (perm : List ℕ) → IsGraph n e
      → Before e
      → MeetsAll index n new e
      → IsPermutation n perm
      → Meets index n k perm e
  no_model-Meets {u} a k Before new s step none before_same r_new e perm graph m_before m_new
        (maps, bij) =
      elim (Bool-cases (less_at k (string index n (permuted perm e)) (string index n e))) [
        | inr e' ↦
            implied_at-less_at k (string index n e) (string index n (permuted perm e)) ∙ ap not e'
        | inl less ↦
            let (v, held, sh1, sh2, sh3) =
              a.complete e (permuted perm e) (λ i j. image perm i == j)
                (bij, graph, permuted-IsGraph e perm graph maps) (IsPermutedBy-permuted e perm) in
            let back = λ (i j : ℕ) (p : i < n) (q : j < n). sym (sh1 i j p q) in
            let less_v =
              ap₂ (λ b c. less_at k b c) (string_congr (table v a.x2) (permuted perm e) sh2)
                (string_congr (table v a.x1) e sh1)
              ∙ less in
            let (w, agree, held') = step.complete v held (
              (less_v, before_same e (table v a.x1) back m_before),
              MeetsAll-same e (table v a.x1) new back r_new m_new,
            ) in
            absurd (cc (none w, held'))
      ]
