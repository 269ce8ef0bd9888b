-- ===== src/GraphReader/Bounds.antt =====
-- The size that `readGraph` of core/GraphReaderWriter.cc finds, and the cells that it writes.
use native.Mathlib.Nat.{div-add-mod', div-lt_iff_lt-mul, mod-lt}
use phd_thesis_src.Prelude.{
  ℕ, zero, suc, ◌+◌, ◌-◌, ◌*◌, ◌/◌, ◌%◌, ◌<◌, ◌≤◌, ◌==◌, ltb, ◌≡◌, refl, sym, ap, ◌∙◌, subst, [],
  ◌∷◌, ℤ, pos, arith, length, get_or, some, Returns, Bool-cases, inl, inr, if◌then◌else◌,
}
use phd_thesis_src.Text.{Bytes}
use phd_thesis_src.Matrix.{Matrix, new_matrix, entry}
use phd_thesis_src.Matrix.Cells.{IsFull}
use phd_thesis_src.Matrix.Writes.{set-Written, new_matrix-IsFull, new_matrix-size}
use phd_thesis_src.GraphReader.{good, read_line, grow, fill_cells, read_graph}

-- The least n from 1 on with n (n - 1) / 2 at least `size`.
pub record IsSize (size n : ℕ) : Type 0 where
  pub positive : 0 < n
  pub enough : size + size ≤ n * (n - 1)
  pub least : (k : ℕ) → 0 < k → k < n → k * (k - 1) < size + size

triangle_suc : (n : ℕ) → 0 < n → suc n * (suc n - 1) ≡ n * (n - 1) + (n + n)
triangle_suc zero h = absurd (omega arith)
triangle_suc (suc p) h =
    let outer : suc (suc p) - 1 ≡ suc p = omega arith in
    let inner : suc p - 1 ≡ p = omega arith in rw (outer, inner) (grind arith)

grow-IsSize :
    (fuel size sum n : ℕ)
    → 0 < n
    → sum + sum ≡ n * (n - 1)
    → size - sum < fuel
    → ((k : ℕ) → 0 < k → k < n → k * (k - 1) < size + size)
    → Returns (grow fuel size sum n) (IsSize size)
unfolding grow
grow-IsSize zero size sum n pos_n e lt least = absurd (omega arith)
grow-IsSize (suc fuel) size sum n pos_n e lt least = elim (Bool-cases (ltb sum size)) [
  | inl more ↦
      let below : sum < size = ground arith in
      let next : (sum + n) + (sum + n) ≡ suc n * (suc n - 1) =
        omega (arith, triangle_suc n pos_n) in
      let (r, run, h) =
        grow-IsSize fuel size (sum + n) (suc n) (omega arith) next (omega arith) (λ k p q.
          elim (Bool-cases (k == n)) [
            | inl here ↦
                let same : n ≡ k = ground arith in
                subst (λ i. i * (i - 1) < size + size) same (omega arith)
            | inr there ↦ least k p (ground arith)
          ]) in
      (r, rw (more, grow) run, h)
  | inr done ↦
      let above : size ≤ sum = ground arith in
      (n, rw (done, grow) refl, record { positive = pos_n; enough = omega arith; least = least })
]

-- The digit of a character.
abbrev bit : ℕ → ℤ
bit c = if c == b'0' then pos 0 else pos 1

-- The cells from position `j` on have the characters, and those before it are kept.
record Filled (n j : ℕ) (cs : Bytes) (g m : Matrix ℤ) : Type 0 where
  rows : m.n_rows ≡ n
  cols : m.n_cols ≡ n
  full : IsFull m
  cells :
      (i : ℕ) → i < length cs → entry m ((j + i) / n) ((j + i) % n) ≡ some (bit (get_or cs i b'0'))
  kept : (i : ℕ) → i < j → entry m (i / n) (i % n) ≡ entry g (i / n) (i % n)

-- The first cell, and those after it.
cells_cons :
    (n j c : ℕ) (cs : Bytes) (m : Matrix ℤ)
    → entry m (j / n) (j % n) ≡ some (bit c)
    → ((i : ℕ)
        → i < length cs
        → entry m ((suc j + i) / n) ((suc j + i) % n) ≡ some (bit (get_or cs i b'0')))
    → (i : ℕ) → i < suc (length cs)
    → entry m ((j + i) / n) ((j + i) % n) ≡ some (bit (get_or (c ∷ cs) i b'0'))
cells_cons n j c cs m first rest zero lt =
    let e : j ≡ j + 0 = omega arith in subst (λ k. entry m (k / n) (k % n) ≡ some (bit c)) e first
cells_cons n j c cs m first rest (suc i) lt =
    let e : suc j + i ≡ j + suc i = omega arith in
    subst (λ k. entry m (k / n) (k % n) ≡ some (bit (get_or cs i b'0'))) e (rest i (omega arith))

fill_cells-Filled :
    (n j : ℕ) (cs : Bytes) (g : Matrix ℤ)
    → 0 < n
    → g.n_rows ≡ n
    → g.n_cols ≡ n
    → IsFull g
    → j + length cs ≤ n * n
    → Returns (fill_cells n j cs g) (Filled n j cs g)
unfolding fill_cells
fill_cells-Filled n j [] g pos_n rows cols full le = (
  g,
  refl,
  record {
    rows = rows;
    cols = cols;
    full = full;
    cells = λ i lt. absurd (omega arith);
    kept = λ i lt. refl;
  },
)
fill_cells-Filled n j (c ∷ cs) g pos_n rows cols full le =
    let row : j / n < n = (div-lt_iff_lt-mul pos_n).1 (omega arith) in
    let col : j % n < n = mod-lt j pos_n in
    let (g₁, run₁, w) =
      set-Written g (j / n) (j % n) (bit c) full (omega (arith, row)) (omega (arith, col)) in
    let (m, run, rest) =
      fill_cells-Filled n (suc j) cs g₁ pos_n (w.rows ∙ rows) (w.cols ∙ cols) w.full
        (omega arith) in
    (
      m,
      rw run₁ run,
      record {
        rows = rest.rows;
        cols = rest.cols;
        full = rest.full;
        cells = cells_cons n j c cs m (rest.kept j (omega arith) ∙ w.here) rest.cells;
        kept = λ i lt.
            rest.kept i (omega arith)
            ∙ w.elsewhere (i / n) (i % n) (omega (arith, mod-lt i pos_n)) (λ p q.
              absurd (omega (arith, ap (λ t. t * n) p, div-add-mod' i n, div-add-mod' j n)));
      },
    )

square-ge : (n size : ℕ) → IsSize size n → 0 + size ≤ n * n
square-ge zero size h = absurd (omega (arith, h.positive))
square-ge (suc p) size h =
    let e : suc p - 1 ≡ p = omega arith in
    let twice : size + size ≤ suc p * p = subst (λ q. size + size ≤ suc p * q) e h.enough in
    grind (arith, twice)

-- The matrix of a line: it is the smallest square whose triangle has as many pairs as the line has
-- characters, and the characters stand in it row by row.
pub record IsRead (line : Bytes) (m : Matrix ℤ) : Type 0 where
  pub n : ℕ
  pub size : IsSize (length line) n
  pub rows : m.n_rows ≡ n
  pub cols : m.n_cols ≡ n
  pub cells : (i : ℕ) → i < length line → entry m (i / n) (i % n) ≡ some (bit (get_or line i b'0'))

-- With fuel above the length of the line that it reads, `readGraph` ends, and does not write outside
-- its matrix. The matrix is the smallest square with at least as many pairs of rows as the line has
-- characters, and character i stands in row i / n and column i % n as 0 or 1.
pub read_graph-IsRead :
    (fuel : ℕ) (file : Bytes) (k : ℕ)
    → length (read_line (k - 1) [] (good file)) < fuel
    → Returns (read_graph fuel file k) (IsRead (read_line (k - 1) [] (good file)))
unfolding read_graph
read_graph-IsRead fuel file k enough =
    let line = read_line (k - 1) [] (good file) in
    let (n, run, size) =
      grow-IsSize fuel (length line) 0 1 (omega arith) (omega arith) (omega arith)
        (λ k p q. absurd (omega arith)) in
    let (er, ec) = new_matrix-size (pos 0) n n in
    let fits : 0 + length line ≤ n * n = square-ge n (length line) size in
    let (m, run', filled) =
      fill_cells-Filled n 0 line (new_matrix (pos 0) n n) size.positive (sym er) (sym ec)
        (new_matrix-IsFull (pos 0) n n) fits in
    (
      m,
      rw run run',
      record {
        n = n;
        size = size;
        rows = filled.rows;
        cols = filled.cols;
        cells = λ i lt.
            let e : 0 + i ≡ i = omega arith in
            subst (λ j. entry m (j / n) (j % n) ≡ some (bit (get_or line i b'0'))) e
              (filled.cells i lt);
      },
    )
