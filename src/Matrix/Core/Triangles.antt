-- ===== src/Matrix/Core/Triangles.antt =====
-- The accesses and the triangles of core/Matrix.h are those of mtl/Matrix.h.
use phd_thesis_src.Prelude.{
  ℕ, zero, suc, Bool, Error, ◌+◌, ◌-◌, ◌*◌, ◌≡◌, refl, sym, ap, ◌∙◌, List, [], ◌∷◌, ◌++◌, length,
  append_assoc, append-nil, set as list_set, Result, ok, err, ◌>>=◌, ltb, true, false,
  if◌then◌else◌,
}
use phd_thesis_src.Matrix.{
  Matrix, row_cells, upper_cells, lower_cells, read_cells, entry, get, set, upper_triangle,
  lower_triangle,
}
use phd_thesis_src.Matrix.Core.{
  CoreMatrix, core_get, core_set, push_row, upper_rows, core_upper_triangle, lower_rows, core_lower,
}

pub bind_congr :
    {A B : Type 0} (r : Result A) (f g : A → Result B)
    → ((x : A) → f x ≡ g x)
    → (r >>= f) ≡ (r >>= g)
bind_congr (ok x) f g h = h x
bind_congr (err e) f g h = refl

pub bind_assoc :
    {A B C : Type 0} (r : Result A) (f : A → Result B) (g : B → Result C)
    → ((r >>= f) >>= g) ≡ (r >>= (λ x. f x >>= g))
bind_assoc (ok x) f g = refl
bind_assoc (err e) f g = refl

module _ {A : Type 0} where
  -- The other copy of a matrix.
  abbrev pub copy : CoreMatrix A → Matrix A
  copy m = record { elements = m.elements; n_rows = m.n_rows; n_cols = m.n_cols }

  abbrev pub copied : Result (CoreMatrix A) → Result (Matrix A)
  copied r = r >>= (λ m. ok (copy m))

  pub get-copy : (m : CoreMatrix A) (i j : ℕ) → core_get m i j ≡ get (copy m) i j
  unfolding core_get get entry
  get-copy m i j = refl

  pub set-copy :
      (m : CoreMatrix A) (i j : ℕ) (x : A) → copied (core_set m i j x) ≡ set (copy m) i j x
  unfolding core_set set
  set-copy m i j x = go (ltb (i * m.n_cols + j) (length m.elements))
    where
      go :
          (b : Bool)
          → copied (
              if b
              then ok (record m { elements = list_set m.elements (i * m.n_cols + j) x })
              else err Error.undefined_access)
            ≡ (if b
                then ok (record (copy m) { elements = list_set m.elements (i * m.n_cols + j) x })
                else err Error.undefined_access)
      go true = refl
      go false = refl

  -- The loops of the triangles, over a list of cells.
  abbrev push : CoreMatrix A → List (ℕ × ℕ) → List A → Result (List A)
  push m [] t = ok t
  push m (c ∷ cs) t = core_get m c.0 c.1 >>= (λ x. push m cs (t ++ (x ∷ [])))

  push-append :
      (m : CoreMatrix A) (cs ds : List (ℕ × ℕ)) (t : List A)
      → push m (cs ++ ds) t ≡ (push m cs t >>= push m ds)
  push-append m [] ds t = refl
  push-append m (c ∷ cs) ds t =
      bind_congr (core_get m c.0 c.1) _ _ (λ x. push-append m cs ds (t ++ (x ∷ [])))
      ∙ sym (bind_assoc (core_get m c.0 c.1) _ _)

  push_row-push :
      (m : CoreMatrix A) (i j k : ℕ) (t : List A) → push_row m i j k t ≡ push m (row_cells i j k) t
  unfolding push_row row_cells
  push_row-push m i j zero t = refl
  push_row-push m i j (suc k) t =
      bind_congr (core_get m i j) _ _ (λ x. push_row-push m i (suc j) k (t ++ (x ∷ [])))

  upper_rows-push :
      (m : CoreMatrix A) (i r : ℕ) (t : List A)
      → upper_rows m i r t ≡ push m (upper_cells i r m.n_cols) t
  unfolding upper_rows upper_cells
  upper_rows-push m i zero t = refl
  upper_rows-push m i (suc r) t =
      let cs = row_cells i (suc i) (m.n_cols - suc i) in
      rw (push_row-push m i (suc i) (m.n_cols - suc i) t) (
        bind_congr (push m cs t) _ _ (upper_rows-push m (suc i) r)
        ∙ sym (push-append m cs (upper_cells (suc i) r m.n_cols) t))

  lower_rows-push :
      (m : CoreMatrix A) (i r : ℕ) (t : List A) → lower_rows m i r t ≡ push m (lower_cells i r) t
  unfolding lower_rows lower_cells
  lower_rows-push m i zero t = refl
  lower_rows-push m i (suc r) t =
      let cs = row_cells i 0 i in
      rw (push_row-push m i 0 i t) (
        bind_congr (push m cs t) _ _ (lower_rows-push m (suc i) r)
        ∙ sym (push-append m cs (lower_cells (suc i) r) t))

  push-read_cells :
      (m : CoreMatrix A) (cs : List (ℕ × ℕ)) (t : List A)
      → push m cs t ≡ (read_cells (copy m) cs >>= (λ xs. ok (t ++ xs)))
  unfolding read_cells
  push-read_cells m [] t = ap ok (sym (append-nil t))
  push-read_cells m (c ∷ cs) t =
      let reads = read_cells (copy m) cs in
      rw (get-copy m c.0 c.1) (
        bind_congr (get (copy m) c.0 c.1) _ _ (λ x.
          push-read_cells m cs (t ++ (x ∷ []))
          ∙ bind_congr reads _ _ (λ xs. ap ok (append_assoc t (x ∷ []) xs))
          ∙ sym (bind_assoc reads (λ xs. ok (x ∷ xs)) (λ xs. ok (t ++ xs))))
        ∙ sym (bind_assoc (get (copy m) c.0 c.1) _ _))

  ok-read : (r : Result (List A)) → (r >>= (λ xs. ok ([] ++ xs))) ≡ r
  ok-read (ok xs) = refl
  ok-read (err e) = refl

  pub upper-copy : (m : CoreMatrix A) → core_upper_triangle m ≡ upper_triangle (copy m)
  unfolding core_upper_triangle upper_triangle
  upper-copy m =
      let cs = upper_cells 0 m.n_rows m.n_cols in
      upper_rows-push m 0 m.n_rows [] ∙ push-read_cells m cs [] ∙ ok-read (read_cells (copy m) cs)

  pub lower-copy : (m : CoreMatrix A) → m.n_rows ≡ m.n_cols → core_lower m ≡ lower_triangle (copy m)
  unfolding core_lower lower_triangle
  lower-copy m square =
      let cs = lower_cells 0 m.n_rows in
      lower_rows-push m 0 m.n_rows []
      ∙ push-read_cells m cs []
      ∙ ok-read (read_cells (copy m) cs)
      ∙ ap (λ n. read_cells (copy m) (lower_cells 0 n)) square
