-- ===== src/Canonizing/PermutationSet/Object.antt =====
-- The objects of core/CanonizingPermutationSetAlg.h.
use phd_thesis_src.Prelude.{ℕ, ◌^◌, ◌<◌, ◌≡◌, refl, ap, ◌∙◌, List, All, Result, ok, Returns, ◌>>=◌}
use phd_thesis_src.Sat.Semantics.{Search, IsCorrect}
use phd_thesis_src.Constraints.{Solver, new_solver}
use phd_thesis_src.Constraints.Interface.{constraint_solver}
use phd_thesis_src.Canonizing.{CanonicalIndexing}
use phd_thesis_src.Canonizing.Done.{IsPermutation}
use phd_thesis_src.Canonizing.PermutationSet.{compute_permutations}
use phd_thesis_src.Canonizing.PermutationSet.Complete.{Suffices, compute_permutations-Suffices}

-- The fields of the class.
pub record CanonizingPermutationSetAlg : Type 0 where
  pub n_vertices : ℕ
  pub solver : Solver
  pub index : CanonicalIndexing

-- The constructor.
pub new_permutation_alg : ℕ → CanonicalIndexing → CanonizingPermutationSetAlg
new_permutation_alg n index = record { n_vertices = n; solver = new_solver; index = index }

-- `compute`, with the object that it leaves.
pub alg_permutations :
    Search → ℕ → CanonizingPermutationSetAlg → Result (List (List ℕ) × CanonizingPermutationSetAlg)
alg_permutations search fuel a =
    compute_permutations a.index (constraint_solver search) fuel a.n_vertices a.solver
    >>= (λ r. ok (r.0, record a { solver = r.1 }))

-- The public methods of the class, over any state. `reduce` has no body.
record PermutationSetAlg (S : Type 0) : Type 0 where
  pub new : ℕ → CanonicalIndexing → S
  pub compute : S → Result (List (List ℕ) × S)

abbrev permutation_set_alg : Search → ℕ → PermutationSetAlg CanonizingPermutationSetAlg
permutation_set_alg search fuel = record {
  new = new_permutation_alg;
  compute = alg_permutations search fuel;
}

-- With a correct search, n > 0 and fuel above n ^ n, `compute` of a new object can be called twice:
-- both calls return one set of permutations of the first n numbers, and leave the object as new. The
-- string of a graph on n vertices is at most those of the graphs permuted by the set exactly when it
-- is the least among those of all graphs that are isomorphic to it.
pub alg_permutations-twice :
    (index : CanonicalIndexing) (n : ℕ) (search : Search)
    → IsCorrect search
    → (fuel : ℕ) → 0 < n
    → n ^ n < fuel
    → Returns (alg_permutations search fuel (new_permutation_alg n index)) λ r.
      (alg_permutations search fuel r.1 ≡ ok r)
      × (r.1 ≡ new_permutation_alg n index)
      × All (IsPermutation n) r.0
      × Suffices index n r.0
unfolding alg_permutations new_permutation_alg
alg_permutations-twice index n search correct fuel pos_n enough =
    let a = new_permutation_alg n index in
    let (r, run, (perms, fresh, suffices)) =
      compute_permutations-Suffices index n search correct fuel pos_n enough in
    let once : alg_permutations search fuel a ≡ ok (r.0, record a { solver = r.1 }) = rw run refl in
    let same : record a { solver = r.1 } ≡ a = ap (λ s. record a { solver = s }) fresh in
    (
      (r.0, record a { solver = r.1 }),
      once,
      (ap (alg_permutations search fuel) same ∙ once, same, perms, suffices),
    )
