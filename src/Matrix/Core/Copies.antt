-- ===== src/Matrix/Core/Copies.antt =====
-- The two copies of the class, core/Matrix.h and mtl/Matrix.h, are one on square matrices.
use phd_thesis_src.Prelude.{
  ℕ, suc, ◌+◌, ◌*◌, ◌≡◌, List, [], ◌∷◌, map, set as list_set, Result, ok, ◌>>=◌,
}
use phd_thesis_src.Matrix.{image}
use phd_thesis_src.Matrix.Core.{CoreMatrix, core_get, core_set}

-- The cells stand one after the other in a vector with rows of `w` elements, from position `k` on.
abbrev Run : ℕ → ℕ → List (ℕ × ℕ) → Type 0
Run w k [] = Unit {0}
Run w k (c ∷ cs) = (c.0 * w + c.1 ≡ k) × Run w (suc k) cs

abbrev moved : List ℕ → List (ℕ × ℕ) → List (ℕ × ℕ)
moved perm cs = map (λ c. (image perm c.0, image perm c.1)) cs

module _ {A : Type 0} where
  -- The loops of `permute`, over a list of cells.
  abbrev fill : CoreMatrix A → List ℕ → List (ℕ × ℕ) → CoreMatrix A → Result (CoreMatrix A)
  fill m perm [] p = ok p
  fill m perm (c ∷ cs) p =
      core_get m (image perm c.0) (image perm c.1)
      >>= (λ x. core_set p c.0 c.1 x >>= fill m perm cs)
