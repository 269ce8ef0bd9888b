-- ===== src/Canonizing/Objects/Tests.antt =====
-- Calls of the objects for three vertices.
use phd_thesis_src.Prelude.{◌≡◌, ◌>>=◌, Returns, ok, All, arith}
use phd_thesis_src.Text.{Bytes, codes}
use phd_thesis_src.Canonizing.Done.{IsPermutation}
use phd_thesis_src.Canonizing.PermutationSet.Complete.{Suffices}
use phd_thesis_src.Canonizing.PermutationSet.Object.{
  new_permutation_alg, alg_permutations, alg_permutations-twice,
}
use phd_thesis_src.Canonizing.Objects.{CanonizingLexImplicationsAlg, new_alg, alg_compute}
use phd_thesis_src.Canonizing.Objects.Again.{first, alg_compute-again}
use phd_thesis_src.Canonizing.Tests.{cols}
use phd_thesis_src.Canonizing.Tests.Brute.{brute_search, brute_search-IsCorrect}
use phd_thesis_src.Reducer.Tests.{keep_all}

abbrev time : Bytes
time = codes "0.5"

abbrev alg3 : CanonizingLexImplicationsAlg
alg3 = new_alg 3 cols

alg_compute-again_example :
    first (
      alg_compute brute_search 28 keep_all 7 time alg3
      >>= (λ q. alg_compute brute_search 28 keep_all 7 time q.1))
    ≡ first (alg_compute brute_search 28 keep_all 7 time alg3)
alg_compute-again_example = alg_compute-again brute_search 28 keep_all 7 time alg3

alg_permutations-twice_example :
    Returns (alg_permutations brute_search 28 (new_permutation_alg 3 cols)) λ r.
      (alg_permutations brute_search 28 r.1 ≡ ok r)
      × (r.1 ≡ new_permutation_alg 3 cols)
      × All (IsPermutation 3) r.0
      × Suffices cols 3 r.0
alg_permutations-twice_example =
    alg_permutations-twice cols 3 brute_search brute_search-IsCorrect 28 (omega arith) (omega arith)
