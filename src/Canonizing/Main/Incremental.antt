-- ===== src/Canonizing/Main/Incremental.antt =====
-- `runIncremental` of core/Main.cc: the set that it builds.
use phd_thesis_src.Prelude.{
  ℕ, zero, suc, ◌+◌, ◌-◌, ◌^◌, ◌<◌, ◌≤◌, ◌≡◌, refl, ap, ◌∙◌, subst, List, [], ◌++◌, arith, All,
  All-append, All-mono, length, Returns,
}
use phd_thesis_src.Sat.Semantics.{Search, IsCorrect}
use phd_thesis_src.Matrix.Upper.{length-upper_cells, length-lower_cells}
use phd_thesis_src.Constraints.{new_solver}
use phd_thesis_src.Canonizing.{
  CanonicalIndexing, upper_triangle_rows, upper_triangle_cols, LexImplication, extend, max_len,
}
use phd_thesis_src.Canonizing.Impose.{cells_of}
use phd_thesis_src.Matrix.Permute.{IsInjective-suc}
use phd_thesis_src.Canonizing.Start.{IsImplication}
use phd_thesis_src.Canonizing.Covers.{Covers, IsReducer, extend-Covers}
use phd_thesis_src.Canonizing.Main.{Reducer, incremental_from, run_incremental}

cells_grow :
    (index : CanonicalIndexing) (n : ℕ)
    → length (cells_of index n) ≤ length (cells_of index (suc n))
cells_grow upper_triangle_rows n = grind (
  arith,
  length-upper_cells n 0 n (omega arith),
  length-upper_cells (suc n) 0 (suc n) (omega arith),
)
cells_grow upper_triangle_cols n =
    grind (arith, length-lower_cells 0 n, length-lower_cells 0 (suc n))

-- An implication for n vertices is one for n + 1 vertices.
pub IsImplication-suc :
    (index : CanonicalIndexing) (n : ℕ) (x : LexImplication)
    → IsImplication index n x
    → IsImplication index (suc n) x
IsImplication-suc index n x (maps, lt, le, short, inj) = (
  All-mono _ _ (λ i l. omega arith) x.perm maps,
  lt,
  omega (arith, cells_grow index n),
  omega arith,
  IsInjective-suc n x.perm short maps inj,
)

-- What is expected of the reducer for every number of vertices.
abbrev AreReducers : CanonicalIndexing → Reducer → Type 0
AreReducers index reduce =
    (n : ℕ) (given : List LexImplication)
    → All (IsImplication index n) given
    → IsReducer index n given (reduce n given)

-- The set that is built for n vertices.
abbrev pub IsCanonical : CanonicalIndexing → ℕ → List LexImplication → Type 0
IsCanonical index n xs = All (IsImplication index n) xs × Covers index n (max_len n) xs

module _ (index : CanonicalIndexing) (search : Search) (correct : IsCorrect search)
    (reduce : Reducer) (reducers : AreReducers index reduce) where
  extend-set :
      (fuel n : ℕ) (canset : List LexImplication)
      → suc n ^ suc n < fuel
      → All (IsImplication index (suc n)) canset
      → Returns (extend index search fuel (reduce (suc n)) (suc n) canset new_solver) λ r.
        All (IsImplication index (suc n)) r.0
        × Covers index (suc n) (max_len (suc n)) (canset ++ r.0)
  extend-set fuel n canset enough h =
      extend-Covers index (suc n) search correct fuel (omega arith) enough canset h (reduce (suc n))
        (reducers (suc n) canset h) new_solver

  incremental_from-IsCanonical :
      (fuel n k : ℕ) (canset : List LexImplication)
      → ((m : ℕ) → m ≤ n + suc k → m ^ m < fuel)
      → All (IsImplication index (suc n)) canset
      → Returns
          (incremental_from search fuel reduce index (suc n) (suc k) canset)
          (IsCanonical index (n + suc k))
  unfolding incremental_from
  incremental_from-IsCanonical fuel n zero canset enough h =
      let (r, run, (r_ok, covers)) = extend-set fuel n canset (enough (suc n) (omega arith)) h in
      let e : suc n ≡ n + 1 = omega arith in
      (
        canset ++ r.0,
        rw run refl,
        subst (λ m. IsCanonical index m (canset ++ r.0)) e
            (All-append (IsImplication index (suc n)) canset r.0 h r_ok, covers),
      )
  incremental_from-IsCanonical fuel n (suc k) canset enough h =
      let (r, run, (r_ok, covers)) = extend-set fuel n canset (enough (suc n) (omega arith)) h in
      let next =
        All-mono _ _ (IsImplication-suc index (suc n)) (canset ++ r.0)
          (All-append (IsImplication index (suc n)) canset r.0 h r_ok) in
      let (xs, run', done) =
        incremental_from-IsCanonical fuel (suc n) k (canset ++ r.0) (λ m le. enough m (omega arith))
          next in
      let e : suc n + suc k ≡ n + suc (suc k) = omega arith in
      (xs, rw run run', subst (λ m. IsCanonical index m xs) e done)

  -- With a correct search, n of 3 or more, fuel above m ^ m for all m up to n and reducers that
  -- return implications from which, with the given set, those they were called with follow,
  -- `runIncremental` returns a set of implications for n vertices. Every graph on n vertices that
  -- meets it meets the implications of all lengths up to the number of pairs less one, for every
  -- permutation.
  pub run_incremental-IsCanonical :
      (fuel n : ℕ)
      → 3 ≤ n
      → ((m : ℕ) → m ≤ n → m ^ m < fuel)
      → Returns (run_incremental search fuel reduce n index) (IsCanonical index n)
  unfolding run_incremental
  run_incremental-IsCanonical fuel n lt enough =
      let k = n - 3 in
      let rounds : suc n - 3 ≡ suc k = omega arith in
      let last : 2 + suc k ≡ n = omega arith in
      let (xs, run, done) =
        incremental_from-IsCanonical fuel 2 k [] (λ m le. enough m (omega arith)) tt in
      (
        xs,
        ap (λ j. incremental_from search fuel reduce index 3 j []) rounds ∙ run,
        subst (λ m. IsCanonical index m xs) last done,
      )
