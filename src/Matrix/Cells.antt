-- ===== src/Matrix/Cells.antt =====
-- Cells of a matrix and the strings read from them.
use phd_thesis_src.Prelude.{
  ℕ, zero, suc, ◌+◌, ◌-◌, ◌*◌, ◌<◌, ◌≤◌, ◌≡◌, ◌≢◌, refl, sym, ap, ◌∙◌, List, [], ◌∷◌, ◌++◌, map,
  length, get_elem?, length-append, some, ok, Returns, arith, All, All-append,
}
use phd_thesis_src.Matrix.{
  Matrix, row_cells, all_cells, upper_cells, lower_cells, entry, get, read_cells,
}

-- The cell lies in the first `n` rows and `m` columns.
abbrev pub InRange : ℕ → ℕ → ℕ × ℕ → Type 0
InRange n m c = (c.0 < n) × (c.1 < m)

row_cells-InRange : (n m i j k : ℕ) → i < n → j + k ≤ m → All (InRange n m) (row_cells i j k)
unfolding row_cells
row_cells-InRange n m i j zero h g = tt
row_cells-InRange n m i j (suc k) h g =
    ((h, omega arith), row_cells-InRange n m i (suc j) k h (omega arith))

pub all_cells-InRange : (n m i r : ℕ) → i + r ≤ n → All (InRange n m) (all_cells i r m)
unfolding all_cells
all_cells-InRange n m i zero h = tt
all_cells-InRange n m i (suc r) h =
    All-append _ (row_cells i 0 m) (all_cells (suc i) r m)
      (row_cells-InRange n m i 0 m (omega arith) (omega arith))
      (all_cells-InRange n m (suc i) r (omega arith))

pub upper_cells-InRange :
    (n m i r : ℕ) → i + r ≤ n → i + r ≤ m → All (InRange n m) (upper_cells i r m)
unfolding upper_cells
upper_cells-InRange n m i zero h g = tt
upper_cells-InRange n m i (suc r) h g =
    All-append _ (row_cells i (suc i) (m - suc i)) (upper_cells (suc i) r m)
      (row_cells-InRange n m i (suc i) (m - suc i) (omega arith) (omega arith))
      (upper_cells-InRange n m (suc i) r (omega arith) (omega arith))

pub lower_cells-InRange :
    (n m i r : ℕ) → i + r ≤ n → i + r ≤ m → All (InRange n m) (lower_cells i r)
unfolding lower_cells
lower_cells-InRange n m i zero h g = tt
lower_cells-InRange n m i (suc r) h g =
    All-append _ (row_cells i 0 i) (lower_cells (suc i) r)
      (row_cells-InRange n m i 0 i (omega arith) (omega arith))
      (lower_cells-InRange n m (suc i) r (omega arith) (omega arith))

-- The cells of the triangles lie off the diagonal.
abbrev pub OffDiagonal : ℕ × ℕ → Type 0
OffDiagonal c = c.0 ≢ c.1

row_cells-above : (i j k : ℕ) → i < j → All OffDiagonal (row_cells i j k)
unfolding row_cells
row_cells-above i j zero h = tt
row_cells-above i j (suc k) h = (λ e. omega arith, row_cells-above i (suc j) k (omega arith))

row_cells-below : (i j k : ℕ) → j + k ≤ i → All OffDiagonal (row_cells i j k)
unfolding row_cells
row_cells-below i j zero h = tt
row_cells-below i j (suc k) h = (λ e. omega arith, row_cells-below i (suc j) k (omega arith))

pub upper_cells-OffDiagonal : (i r m : ℕ) → All OffDiagonal (upper_cells i r m)
unfolding upper_cells
upper_cells-OffDiagonal i zero m = tt
upper_cells-OffDiagonal i (suc r) m =
    All-append OffDiagonal (row_cells i (suc i) (m - suc i)) (upper_cells (suc i) r m)
      (row_cells-above i (suc i) (m - suc i) (omega arith)) (upper_cells-OffDiagonal (suc i) r m)

pub lower_cells-OffDiagonal : (i r : ℕ) → All OffDiagonal (lower_cells i r)
unfolding lower_cells
lower_cells-OffDiagonal i zero = tt
lower_cells-OffDiagonal i (suc r) =
    All-append OffDiagonal (row_cells i 0 i) (lower_cells (suc i) r)
      (row_cells-below i 0 i (omega arith)) (lower_cells-OffDiagonal (suc i) r)

pub index-lt : (r c i j : ℕ) → i < r → j < c → i * c + j < r * c
index-lt r c i j p q = grind arith

module _ {A : Type 0} where
  -- The vector has a value for each cell.
  abbrev pub IsFull : Matrix A → Type 0
  IsFull m = length m.elements ≡ m.n_rows * m.n_cols

  get_elem?-lt : (xs : List A) (i : ℕ) → i < length xs → (x : A) × (get_elem? xs i ≡ some x)
  get_elem?-lt [] i h = absurd (omega arith)
  get_elem?-lt (x ∷ xs) zero h = (x, refl)
  get_elem?-lt (x ∷ xs) (suc i) h = get_elem?-lt xs i (omega arith)

  entry-total :
      (m : Matrix A) (i j : ℕ)
      → IsFull m
      → i < m.n_rows
      → j < m.n_cols
      → (x : A) × (entry m i j ≡ some x)
  unfolding entry
  entry-total m i j h p q =
      get_elem?-lt m.elements (i * m.n_cols + j) (omega (arith, index-lt m.n_rows m.n_cols i j p q))

  pub get_lem : (m : Matrix A) (i j : ℕ) (x : A) → entry m i j ≡ some x → get m i j ≡ ok x
  unfolding get
  get_lem m i j x e = rw e

  -- What the loops read where all cells are there.
  abbrev pub Reads : Matrix A → List (ℕ × ℕ) → List A → Type 0
  Reads m [] [] = Unit
  Reads m (c ∷ cs) (x ∷ xs) = (entry m c.0 c.1 ≡ some x) × Reads m cs xs
  Reads m cs xs = ⊥

  pub read_cells-total :
      (m : Matrix A) (cs : List (ℕ × ℕ))
      → IsFull m
      → All (InRange m.n_rows m.n_cols) cs
      → Returns (read_cells m cs) (Reads m cs)
  unfolding read_cells
  read_cells-total m [] h r = ([], refl, tt)
  read_cells-total m (c ∷ cs) h r =
      let (x, e) = entry-total m c.0 c.1 h r.0.0 r.0.1 in
      let (xs, run, reads) = read_cells-total m cs h r.1 in
      (x ∷ xs, rw (get_lem m c.0 c.1 x e, run), (e, reads))

  -- What is read is read in the order of the cells.
  pub get_elem?-Reads :
      (m : Matrix A) (cs : List (ℕ × ℕ)) (xs : List A) (k : ℕ) (c : ℕ × ℕ)
      → Reads m cs xs
      → get_elem? cs k ≡ some c
      → get_elem? xs k ≡ entry m c.0 c.1
  get_elem?-Reads m [] [] k c r e = absurd (cc e)
  get_elem?-Reads m (d ∷ cs) (x ∷ xs) zero c r e = ground (arith, r.0)
  get_elem?-Reads m (d ∷ cs) (x ∷ xs) (suc k) c r e = get_elem?-Reads m cs xs k c r.1 e
  get_elem?-Reads m [] (x ∷ xs) k c r e = elim r [ ]
  get_elem?-Reads m (d ∷ cs) [] k c r e = elim r [ ]

  pub length-Reads :
      (m : Matrix A) (cs : List (ℕ × ℕ)) (xs : List A) → Reads m cs xs → length xs ≡ length cs
  length-Reads m [] [] r = refl
  length-Reads m (d ∷ cs) (x ∷ xs) r = ap suc (length-Reads m cs xs r.1)
  length-Reads m [] (x ∷ xs) r = elim r [ ]
  length-Reads m (d ∷ cs) [] r = elim r [ ]

  -- The loops read the same from two matrices whose visited cells are the same.
  pub Reads-map :
      (f : ℕ × ℕ → ℕ × ℕ) (m m' : Matrix A) (cs : List (ℕ × ℕ)) (xs : List A)
      → All (λ c. entry m' c.0 c.1 ≡ entry m (f c).0 (f c).1) cs
      → Reads m (map f cs) xs
      → Reads m' cs xs
  Reads-map f m m' [] [] h r = tt
  Reads-map f m m' (c ∷ cs) (x ∷ xs) h r = (h.0 ∙ r.0, Reads-map f m m' cs xs h.1 r.1)
  Reads-map f m m' [] (x ∷ xs) h r = elim r [ ]
  Reads-map f m m' (c ∷ cs) [] h r = elim r [ ]

  pub read_cells-Reads :
      (m : Matrix A) (cs : List (ℕ × ℕ)) (xs : List A) → Reads m cs xs → read_cells m cs ≡ ok xs
  unfolding read_cells
  read_cells-Reads m [] [] r = refl
  read_cells-Reads m (c ∷ cs) (x ∷ xs) r =
      rw (get_lem m c.0 c.1 x r.0, read_cells-Reads m cs xs r.1)
  read_cells-Reads m [] (x ∷ xs) r = elim r [ ]
  read_cells-Reads m (c ∷ cs) [] r = elim r [ ]

-- The position of a cell among all cells.
get_elem?-append_left {ℓ} :
    {A : Type ℓ} (xs ys : List A) (k : ℕ) → k < length xs → get_elem? (xs ++ ys) k ≡ get_elem? xs k
get_elem?-append_left [] ys k h = absurd (omega arith)
get_elem?-append_left (x ∷ xs) ys zero h = refl
get_elem?-append_left (x ∷ xs) ys (suc k) h = get_elem?-append_left xs ys k (omega arith)

get_elem?-append_right {ℓ} :
    {A : Type ℓ} (xs ys : List A) (n k : ℕ)
    → n ≡ length xs
    → get_elem? (xs ++ ys) (n + k) ≡ get_elem? ys k
get_elem?-append_right [] ys n k h = let e : n + k ≡ k = omega arith in rw e
get_elem?-append_right (x ∷ xs) ys zero k h = absurd (omega arith)
get_elem?-append_right (x ∷ xs) ys (suc n) k h =
    let e : suc n + k ≡ suc (n + k) = omega arith in
    rw e (get_elem?-append_right xs ys n k (omega arith))

pub length-row_cells : (i j k : ℕ) → length (row_cells i j k) ≡ k
unfolding row_cells
length-row_cells i j zero = refl
length-row_cells i j (suc k) = ap suc (length-row_cells i (suc j) k)

get_elem?-row_cells : (i j k l : ℕ) → l < k → get_elem? (row_cells i j k) l ≡ some (i, j + l)
unfolding row_cells
get_elem?-row_cells i j zero l h = absurd (omega arith)
get_elem?-row_cells i j (suc k) zero h = let e : j + 0 ≡ j = omega arith in rw e
get_elem?-row_cells i j (suc k) (suc l) h =
    let e : j + suc l ≡ suc j + l = omega arith in
    rw e (get_elem?-row_cells i (suc j) k l (omega arith))

pub get_elem?-all_cells :
    (i r c i' j : ℕ) → i' < r → j < c → get_elem? (all_cells i r c) (i' * c + j) ≡ some (i + i', j)
unfolding all_cells
get_elem?-all_cells i zero c i' j h g = absurd (omega arith)
get_elem?-all_cells i (suc r) c zero j h g =
    let e : zero * c + j ≡ j = omega arith in
    let e' : i + zero ≡ i = omega arith in
    let first =
      get_elem?-append_left (row_cells i 0 c) (all_cells (suc i) r c) j (rw length-row_cells g) in
    rw (e, e') (first ∙ get_elem?-row_cells i 0 c j g ∙ ap (λ t. some (i, t)) (omega arith))
get_elem?-all_cells i (suc r) c (suc i') j h g =
    let e : suc i' * c + j ≡ c + (i' * c + j) = grind arith in
    let e' : i + suc i' ≡ suc i + i' = omega arith in
    rw (e, e')
      (get_elem?-append_right (row_cells i 0 c) (all_cells (suc i) r c) c (i' * c + j)
          (sym (length-row_cells i 0 c))
        ∙ get_elem?-all_cells (suc i) r c i' j (omega arith) g)

pub length-all_cells : (i r c : ℕ) → length (all_cells i r c) ≡ r * c
unfolding all_cells
length-all_cells i zero c = omega arith
length-all_cells i (suc r) c =
    length-append (row_cells i 0 c) (all_cells (suc i) r c)
    ∙ omega (arith, length-row_cells i 0 c, length-all_cells (suc i) r c)
