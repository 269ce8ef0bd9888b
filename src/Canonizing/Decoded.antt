-- ===== src/Canonizing/Decoded.antt =====
-- The permutation that is decoded from a model of a round.
use phd_thesis_src.Prelude.{
  ℕ, zero, suc, ◌<◌, ◌≡◌, refl, ap, ◌∙◌, Bool, true, List, [], ◌∷◌, map, pos, arith, All, length,
  get_or, ok,
}
use phd_thesis_src.Sat.Semantics.{Valuation}
use phd_thesis_src.Matrix.{image}
use phd_thesis_src.Matrix.Permute.{Maps, IsInjective, image-lt}
use phd_thesis_src.Matrix.Strings.{permuted}
use phd_thesis_src.Constraints.Semantics.{holds}
use phd_thesis_src.Constraints.Ints.Single.{ones, OneHot}
use phd_thesis_src.Constraints.Ints.Rows.{rows}
use phd_thesis_src.Constraints.Answers.Decode.{decoded, first_index-true}
use phd_thesis_src.Constraints.Graphs.Filled.{SameGraph}
use phd_thesis_src.Constraints.Graphs.Pairs.{table}
use phd_thesis_src.Constraints.Graphs.Tally.{tally_unique}
use phd_thesis_src.Constraints.Graphs.Tables.{ref_at, cell_of, table-cell_of}
use phd_thesis_src.Canonizing.{Round, indices}
use phd_thesis_src.Canonizing.SetUp.{SetUpResult}

pub indices-pos : (ks : List ℕ) → indices (map pos ks) ≡ ok ks
unfolding indices
indices-pos [] = refl
indices-pos (k ∷ ks) = rw (indices-pos ks) refl

decoded-Maps : (n : ℕ) (xs : List (List Bool)) → All (OneHot n) xs → Maps n (decoded xs)
decoded-Maps n [] h = tt
decoded-Maps n (x ∷ xs) h =
    let (lt, _) = first_index-true x (omega (arith, h.0.1)) in
    (omega (arith, h.0.0), decoded-Maps n xs h.1)

length-decoded : (xs : List (List Bool)) → length (decoded xs) ≡ length xs
length-decoded [] = refl
length-decoded (x ∷ xs) = ap suc (length-decoded xs)

pub OneHot-ones : (n : ℕ) (xs : List (List Bool)) → All (OneHot n) xs → All (λ x. 0 < ones x) xs
OneHot-ones n [] h = tt
OneHot-ones n (x ∷ xs) h = (omega (arith, h.0.1), OneHot-ones n xs h.1)

cell_of-decoded :
    (n : ℕ) (xs : List (List Bool)) (k d : ℕ)
    → All (OneHot n) xs
    → k < length xs
    → cell_of xs k (get_or (decoded xs) k d) ≡ true
cell_of-decoded n [] k d h lt = absurd (omega arith)
cell_of-decoded n (x ∷ xs) zero d h lt = (first_index-true x (omega (arith, h.0.1))).1
cell_of-decoded n (x ∷ xs) (suc k) d h lt = cell_of-decoded n xs k d h.1 (omega arith)

-- The permutation of a model.
abbrev pub perm_of : {n : ℕ} {u : Round} → SetUpResult n u → Valuation → List ℕ
perm_of a v = decoded (rows v a.bs)

module _ {n : ℕ} {u : Round} (a : SetUpResult n u) (v : Valuation)
    (held : holds v u.solver ≡ true) where
  pub perm_of-Maps : Maps n (perm_of a v)
  perm_of-Maps = decoded-Maps n (rows v a.bs) (a.matrix v held).0.1

  pub length-perm_of : length (perm_of a v) ≡ n
  length-perm_of = length-decoded (rows v a.bs) ∙ (a.matrix v held).0.0

  sends : (k : ℕ) → k < n → table v (ref_at a.bs) k (image (perm_of a v) k) ≡ true
  sends k lt =
      let hot = (a.matrix v held).0 in
      table-cell_of v n a.bs k (image (perm_of a v) k) a.size a.widths lt
        (image-lt n k (perm_of a v) perm_of-Maps lt)
      ∙ cell_of-decoded n (rows v a.bs) k k hot.1 (omega (arith, hot.0))

  -- The columns of the matrix have one entry each.
  pub perm_of-IsInjective : IsInjective n (perm_of a v)
  perm_of-IsInjective i j p q e =
      let c = image (perm_of a v) i in
      let t = table v (ref_at a.bs) in
      tally_unique (λ k. t k c) n i j
        ((a.sound v held).0.0.columns c (image-lt n i (perm_of a v) perm_of-Maps p)) p q (sends i p)
        (ap (t j) e ∙ sends j q)

  -- In a model of a round the second graph is the first one with the decoded permutation.
  pub second-permuted : SameGraph n (table v a.x2) (permuted (perm_of a v) (table v a.x1))
  second-permuted k l lk ll =
      let p = perm_of a v in
      (a.sound v held).1 k l (image p k) (image p l) lk ll (image-lt n k p perm_of-Maps lk)
        (image-lt n l p perm_of-Maps ll) (sends k lk) (sends l ll)
