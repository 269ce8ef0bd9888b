-- ===== src/Matrix/Permute.antt =====
-- `permute` and the triangles.
use phd_thesis_src.Prelude.{
  ℕ, zero, suc, ◌+◌, ◌*◌, ◌<◌, ◌≤◌, ◌==◌, ◌≡◌, inl, inr, Bool-cases, refl, ap, ◌∙◌, subst, List, [],
  ◌∷◌, map, length, get_elem?, get_or, some, Returns, arith, All, All-mono,
}
use phd_thesis_src.Matrix.{Matrix, all_cells, image, entry, permute, read_cells}
use phd_thesis_src.Matrix.Cells.{
  InRange, IsFull, Reads, read_cells-total, get_elem?-Reads, length-Reads, Reads-map,
  get_elem?-all_cells, length-all_cells, all_cells-InRange, read_cells-Reads,
}

-- Each index below `n` that the vector has is sent below `n`.
abbrev pub Maps : ℕ → List ℕ → Type 0
Maps n perm = All (λ x. x < n) perm

get_or-lt : (n i k : ℕ) (perm : List ℕ) → Maps n perm → i < n → get_or perm k i < n
get_or-lt n i k [] h lt = lt
get_or-lt n i zero (x ∷ perm) h lt = h.0
get_or-lt n i (suc k) (x ∷ perm) h lt = get_or-lt n i k perm h.1 lt

pub image-lt : (n i : ℕ) (perm : List ℕ) → Maps n perm → i < n → image perm i < n
image-lt n i perm h lt = get_or-lt n i i perm h lt

-- Different indices below `n` are sent to different ones.
abbrev pub IsInjective : ℕ → List ℕ → Type 0
IsInjective n perm = (i j : ℕ) → i < n → j < n → image perm i ≡ image perm j → i ≡ j

-- An index beyond the vector is kept.
image-ge : (k : ℕ) (perm : List ℕ) → length perm ≤ k → image perm k ≡ k
image-ge k perm h = go k k perm h
  where
    go : (i d : ℕ) (xs : List ℕ) → length xs ≤ i → get_or xs i d ≡ d
    go i d [] h = refl
    go zero d (x ∷ xs) h = absurd (omega arith)
    go (suc i) d (x ∷ xs) h = go i d xs (omega arith)

pub IsInjective-suc :
    (n : ℕ) (perm : List ℕ)
    → length perm ≤ n
    → Maps n perm
    → IsInjective n perm
    → IsInjective (suc n) perm
IsInjective-suc n perm short maps inj i j p q e = elim (Bool-cases (i == n)) [
  | inl at_i ↦ elim (Bool-cases (j == n)) [
    | inl at_j ↦ ground arith
    | inr below ↦
        let same : i ≡ n = ground arith in
        let lt : j < n = ground arith in
        absurd (omega (arith, e, image-ge i perm (omega arith), image-lt n j perm maps lt))
  ]
  | inr other ↦
      let lt : i < n = ground arith in
      elim (Bool-cases (j == n)) [
        | inl at_j ↦
            let same : j ≡ n = ground arith in
            absurd (omega (arith, e, image-ge j perm (omega arith), image-lt n i perm maps lt))
        | inr below ↦ inj i j lt (ground arith) e
      ]
]

abbrev moved : List ℕ → ℕ × ℕ → ℕ × ℕ
moved perm c = (image perm c.0, image perm c.1)

moved-InRange :
    (n m : ℕ) (perm : List ℕ) (cs : List (ℕ × ℕ))
    → Maps n perm
    → Maps m perm
    → All (InRange n m) cs
    → All (InRange n m) (map (moved perm) cs)
moved-InRange n m perm [] h g r = tt
moved-InRange n m perm (c ∷ cs) h g r =
    ((image-lt n c.0 perm h r.0.0, image-lt m c.1 perm g r.0.1), moved-InRange n m perm cs h g r.1)

get_elem?-map :
    {A B : Type 0} (f : A → B) (xs : List A) (k : ℕ) (x : A)
    → get_elem? xs k ≡ some x
    → get_elem? (map f xs) k ≡ some (f x)
get_elem?-map f [] k x e = absurd (cc e)
get_elem?-map f (y ∷ xs) zero x e = ground arith
get_elem?-map f (y ∷ xs) (suc k) x e = get_elem?-map f xs k x e

length-map : {A B : Type 0} (f : A → B) (xs : List A) → length (map f xs) ≡ length xs
length-map f [] = refl
length-map f (x ∷ xs) = ap suc (length-map f xs)

module _ {A : Type 0} where
  -- A square matrix with all its cells.
  abbrev pub IsSquare : Matrix A → Type 0
  IsSquare m = (m.n_rows ≡ m.n_cols) × IsFull m

  -- Both matrices have one size, and row and column `i` of the second are row and column perm[i]
  -- of the first.
  pub record Permuted (m : Matrix A) (perm : List ℕ) (m' : Matrix A) : Type 0 where
    pub rows : m'.n_rows ≡ m.n_rows
    pub cols : m'.n_cols ≡ m.n_cols
    pub square : IsSquare m'
    pub cells :
        (i j : ℕ)
        → i < m.n_rows
        → j < m.n_cols
        → entry m' i j ≡ entry m (image perm i) (image perm j)

  -- On a square matrix, with a vector that sends indices to indices, `permute` has no access out
  -- of bounds, and its result has at (i, j) the element at (perm[i], perm[j]); an index beyond the
  -- vector is kept.
  pub permute-Permuted :
      (m : Matrix A) (perm : List ℕ)
      → IsSquare m
      → Maps m.n_rows perm
      → Returns (permute m perm) (Permuted m perm)
  unfolding permute entry
  permute-Permuted m perm (square, full) h =
      let cs = all_cells 0 m.n_rows m.n_cols in
      let (es, run, reads) = read_cells-total m (map (moved perm) cs) full (
        moved-InRange m.n_rows m.n_cols perm cs h (subst (λ n. Maps n perm) square h)
          (all_cells-InRange m.n_rows m.n_cols 0 m.n_rows (omega arith))) in
      let len =
        length-Reads m (map (moved perm) cs) es reads
        ∙ length-map (moved perm) cs
        ∙ length-all_cells 0 m.n_rows m.n_cols in
      (
        record m { elements = es },
        rw run,
        record {
          rows = refl;
          cols = refl;
          square = (square, len);
          cells = λ i j p q.
              let cell = get_elem?-all_cells 0 m.n_rows m.n_cols i j p q in
              let here = get_elem?-map (moved perm) cs (i * m.n_cols + j) (0 + i, j) cell in
              let e : 0 + i ≡ i = omega arith in
              get_elem?-Reads m (map (moved perm) cs) es (i * m.n_cols + j) (moved perm (0 + i, j))
                reads here
              ∙ ap (λ k. get_elem? m.elements (image perm k * m.n_cols + image perm j)) e;
        },
      )

  module _ (m : Matrix A) (perm : List ℕ) (h : IsSquare m) (maps : Maps m.n_rows perm) where
    triangle_of :
        (cs : List (ℕ × ℕ))
        → All (InRange m.n_rows m.n_cols) cs
        → (m' : Matrix A) → Permuted m perm m'
        → Returns (read_cells m' cs) (Reads m (map (moved perm) cs))
    triangle_of cs r m' p =
        let (xs, run, reads) =
          read_cells-total m (map (moved perm) cs) h.1
            (moved-InRange m.n_rows m.n_cols perm cs maps (subst (λ n. Maps n perm) h.0 maps) r) in
        let same =
          Reads-map (moved perm) m m' cs xs (All-mono _ _ (λ c q. p.cells c.0 c.1 q.0 q.1) cs r)
            reads in
        (xs, read_cells-Reads m' cs xs same, reads)
