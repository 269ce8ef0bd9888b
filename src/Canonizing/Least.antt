-- ===== src/Canonizing/Least.antt =====
-- The graphs that meet a canonizing set are those whose string is the least of their class.
use phd_thesis_src.Prelude.{
  ℕ, suc, ◌+◌, ◌-◌, ◌*◌, ◌^◌, ◌<◌, ◌≡◌, ◌↔◌, ◌∙◌, sym, true, List, [], ◌∷◌, arith, All, length,
  Result, Returns,
}
use phd_thesis_src.Sat.Semantics.{Search, IsCorrect}
use phd_thesis_src.Order.{Graph, IsGraph, lex_le}
use phd_thesis_src.Order.Last.{implied_at-lex_le, lex_le-implied_at}
use phd_thesis_src.Order.Pigeonhole.{injective-onto, image-once}
use phd_thesis_src.Matrix.{image}
use phd_thesis_src.Matrix.Permute.{Maps, IsInjective, image-lt}
use phd_thesis_src.Matrix.Strings.{permuted}
use phd_thesis_src.Matrix.Upper.{length-upper_cells, length-lower_cells}
use phd_thesis_src.Constraints.{Solver}
use phd_thesis_src.Canonizing.{
  CanonicalIndexing, upper_triangle_rows, upper_triangle_cols, LexImplication, max_len, compute,
}
use phd_thesis_src.Canonizing.Impose.{cells_of, string, length-string, Meets}
use phd_thesis_src.Canonizing.Start.{IsImplication, MeetsAll}
use phd_thesis_src.Canonizing.Done.{IsPermutation, permuted-IsGraph}
use phd_thesis_src.Canonizing.Edges.{ones-permuted}
use phd_thesis_src.Canonizing.Covers.{Covers, IsReducer, pairs, compute-Covers}

pub IsInjective-IsPermutation :
    (n : ℕ) (perm : List ℕ) → Maps n perm → IsInjective n perm → IsPermutation n perm
IsInjective-IsPermutation n perm maps inj =
    let inside = λ (i : ℕ) (p : i < n). image-lt n i perm maps p in
    (
      maps,
      record {
        rows = λ k p. image-once n (image perm k) (inside k p);
        columns = λ i p. injective-onto (image perm) n inside inj i p;
      },
    )

-- All positions but the last are below `max_len`.
last_position :
    (index : CanonicalIndexing) (n j : ℕ) → suc j < length (cells_of index n) → j < max_len n
last_position upper_triangle_rows n j lt =
    omega (arith, pairs n, length-upper_cells n 0 n (omega arith))
last_position upper_triangle_cols n j lt =
    let zero_plus : 0 + n ≡ n = omega arith in
    let twice : 2 * length (cells_of upper_triangle_cols n) + n ≡ n * n =
      grind (arith, length-lower_cells 0 n, zero_plus) in
    omega (arith, pairs n, twice)

module _ (index : CanonicalIndexing) (n : ℕ) where
  -- The string of the graph is at most that of each graph that is isomorphic to it.
  abbrev pub IsLeast : Graph → Type 0
  IsLeast e =
      (perm : List ℕ)
      → IsPermutation n perm
      → lex_le (string index n e) (string index n (permuted perm e)) ≡ true

  -- A graph meets the set exactly when it is the least of its class.
  abbrev pub IsCanonizing : List LexImplication → Type 0
  IsCanonizing xs = (e : Graph) → IsGraph n e → MeetsAll index n xs e ↔ IsLeast e

  pub IsLeast-MeetsAll :
      (e : Graph) (xs : List LexImplication)
      → IsLeast e
      → All (IsImplication index n) xs
      → MeetsAll index n xs e
  IsLeast-MeetsAll e [] least r = tt
  IsLeast-MeetsAll e (x ∷ xs) least r = (
    lex_le-implied_at (x.length - 1) (string index n e) (string index n (permuted x.perm e))
        (least x.perm (IsInjective-IsPermutation n x.perm r.0.0 r.0.4)),
    IsLeast-MeetsAll e xs least r.1,
  )

  -- All lengths decide the order, since permuted graphs have equally many edges.
  pub Meets-IsLeast :
      (e : Graph)
      → IsGraph n e
      → ((j : ℕ) (perm : List ℕ) → j < max_len n → IsPermutation n perm → Meets index n j perm e)
      → IsLeast e
  Meets-IsLeast e graph meets perm p =
      let e' = permuted perm e in
      implied_at-lex_le (string index n e) (string index n e')
        (length-string index n e ∙ sym (length-string index n e'))
        (ones-permuted index n e perm graph (permuted-IsGraph index n e perm graph p.0) p)
        (λ j lt. meets j perm (last_position index n j (omega (arith, length-string index n e))) p)

  pub Covers-IsCanonizing :
      (xs : List LexImplication)
      → All (IsImplication index n) xs
      → Covers index n (max_len n) xs
      → IsCanonizing xs
  Covers-IsCanonizing xs r covers e graph = (
    λ meets. Meets-IsLeast e graph (λ j perm lt p. covers e j perm graph meets lt p),
    λ least. IsLeast-MeetsAll e xs least r,
  )

  -- With a correct search, n > 0, fuel above n ^ n and a reducer that returns implications from
  -- which those it was called with follow, `compute` returns on any solver. A graph on n vertices
  -- meets the set returned exactly when its string is the least among those of the graphs that
  -- are isomorphic to it.
  pub compute-IsCanonizing :
      (search : Search)
      → IsCorrect search
      → (fuel : ℕ) → 0 < n
      → n ^ n < fuel
      → (reduce : List LexImplication → Result (List LexImplication)) → IsReducer index n [] reduce
      → (s : Solver) → Returns (compute index search fuel reduce n s) λ r. IsCanonizing r.0
  compute-IsCanonizing search correct fuel pos_n enough reduce reducer s =
      let (r, run, (r_ok, covers)) =
        compute-Covers index n search correct fuel pos_n enough reduce reducer s in
      (r, run, Covers-IsCanonizing r.0 r_ok covers)
