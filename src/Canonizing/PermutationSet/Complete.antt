-- ===== src/Canonizing/PermutationSet/Complete.antt =====
-- `compute` of core/CanonizingPermutationSetAlg.cc: the permutations that it returns suffice.
use phd_thesis_src.Prelude.{
  ℕ, ◌^◌, ◌<◌, ◌≡◌, ◌↔◌, refl, sym, ap₂, ◌∙◌, subst, true, false, not, ap, List, [], ◌∷◌, arith,
  All, Returns, ◌==◌, Bool-cases, inl, inr,
}
use phd_thesis_src.Sat.Semantics.{Valuation, Search, IsCorrect}
use phd_thesis_src.Order.{Graph, IsGraph, lex_le, lex_lt, lex_le-lex_lt}
use phd_thesis_src.Matrix.{image}
use phd_thesis_src.Matrix.Strings.{permuted}
use phd_thesis_src.Constraints.{Solver, new_solver, new_model}
use phd_thesis_src.Constraints.Initial.{new_model-new_solver}
use phd_thesis_src.Constraints.Semantics.{holds}
use phd_thesis_src.Constraints.Encodes.{Encodes, Encodes_map}
use phd_thesis_src.Constraints.Lex.{bool_arrays_lex_lt}
use phd_thesis_src.Constraints.Lex.Strict.{bool_arrays_lex_lt-Encodes}
use phd_thesis_src.Constraints.Graphs.Filled.{SameGraph}
use phd_thesis_src.Constraints.Graphs.Pairs.{table}
use phd_thesis_src.Constraints.Interface.{constraint_solver}
use phd_thesis_src.Canonizing.{CanonicalIndexing, Round, set_up}
use phd_thesis_src.Canonizing.SetUp.{SetUpResult, set_up-SetUpResult}
use phd_thesis_src.Canonizing.Impose.{
  cells_of, string, indexing-string, values-at_cells, string-refs, length-string,
}
use phd_thesis_src.Canonizing.Candidates.{has, all_lists, has-all_lists, length-all_lists}
use phd_thesis_src.Canonizing.Decoded.{perm_of, perm_of-Maps, length-perm_of}
use phd_thesis_src.Canonizing.Done.{
  IsPermutation, string_congr, permuted_congr, permuted-IsGraph, IsPermutedBy-permuted,
}
use phd_thesis_src.Canonizing.Least.{IsLeast}
use phd_thesis_src.Canonizing.PermutationSet.{start_permutations, compute_permutations}
use phd_thesis_src.Canonizing.PermutationSet.Weak.{IsAtMostAll}
use phd_thesis_src.Canonizing.PermutationSet.Find.{Model, State, find_permutations-Finished}

start_permutations-set_up :
    (search : Search) (n : ℕ)
    → start_permutations (constraint_solver search) n new_solver ≡ set_up n new_solver
unfolding start_permutations set_up
start_permutations-set_up search n = rw (new_model-new_solver new_solver) refl

module _ (index : CanonicalIndexing) (n : ℕ) where
  IsAtMostAll-same :
      (e f : Graph) (perms : List (List ℕ))
      → SameGraph n e f
      → All (IsPermutation n) perms
      → IsAtMostAll index n perms e
      → IsAtMostAll index n perms f
  IsAtMostAll-same e f [] same r h = tt
  IsAtMostAll-same e f (perm ∷ perms) same r h = (
    ap₂ (λ a b. lex_le a b) (sym (string_congr index n e f same))
          (sym (
            string_congr index n (permuted perm e) (permuted perm f)
              (permuted_congr index n e f perm same r.0.0)))
        ∙ h.0,
    IsAtMostAll-same e f perms same r.1 h.1,
  )

  -- A graph is at most the ones permuted by the set exactly when it is the least of its class.
  abbrev pub Suffices : List (List ℕ) → Type 0
  Suffices perms = (e : Graph) → IsGraph n e → IsAtMostAll index n perms e ↔ IsLeast index n e

  -- With no model left, a graph that is at most the ones permuted by the set is the least.
  refuted-IsLeast :
      {u : Round} (a : SetUpResult n u) (perms : List (List ℕ)) (s : Solver)
      → Encodes u.solver s (Model index n u a perms) (Model index n u a perms)
      → ((v : Valuation) → holds v s ≡ false)
      → All (IsPermutation n) perms
      → (e : Graph) → IsGraph n e
      → IsAtMostAll index n perms e
      → IsLeast index n e
  refuted-IsLeast {u} a perms s step none r e graph meets perm (maps, bij) =
      let str = string index n e in
      let str' = string index n (permuted perm e) in
      let len = length-string index n e ∙ sym (length-string index n (permuted perm e)) in
      elim (Bool-cases (lex_lt str' str)) [
        | inr e' ↦ lex_le-lex_lt str str' len ∙ ap not e'
        | inl less ↦
            let (v, held, sh1, sh2, sh3) =
              a.complete e (permuted perm e) (λ i j. image perm i == j)
                (bij, graph, permuted-IsGraph index n e perm graph maps)
                (IsPermutedBy-permuted index n e perm) in
            let back = λ (i j : ℕ) (p : i < n) (q : j < n). sym (sh1 i j p q) in
            let less_v =
              ap₂ (λ b c. lex_lt b c) (string_congr index n (table v a.x2) (permuted perm e) sh2)
                (string_congr index n (table v a.x1) e sh1)
              ∙ less in
            let (w, agree, held') =
              step.complete v held (less_v, IsAtMostAll-same e (table v a.x1) perms back r meets) in
            absurd (cc (none w, held'))
      ]

  IsLeast-IsAtMostAll :
      (e : Graph) (perms : List (List ℕ))
      → All (IsPermutation n) perms
      → IsLeast index n e
      → IsAtMostAll index n perms e
  IsLeast-IsAtMostAll e [] r least = tt
  IsLeast-IsAtMostAll e (perm ∷ perms) r least =
      (least perm r.0, IsLeast-IsAtMostAll e perms r.1 least)

  -- The constraint that the permuted graph is less.
  less-Encodes :
      (u : Round) (a : SetUpResult n u)
      → Returns
          (bool_arrays_lex_lt (string index n a.x2) (string index n a.x1) u.solver)
          λ s. Encodes u.solver s (Model index n u a []) (Model index n u a [])
  less-Encodes u a =
      let refs1 = λ (i j : ℕ) (p : i < n) (q : j < n). (a.given.cells1 i j p q).ref in
      let refs2 = λ (i j : ℕ) (p : i < n) (q : j < n). (a.given.cells2 i j p q).ref in
      let (s, run, step) =
        bool_arrays_lex_lt-Encodes (string index n a.x2) (string index n a.x1)
          (length-string index n a.x2 ∙ sym (length-string index n a.x1)) u.solver a.given.valid
          (string-refs index n u.solver a.x2 refs2) (string-refs index n u.solver a.x1 refs1) in
      let same = λ (v : Valuation).
        ap₂ (λ b c. lex_lt b c) (values-at_cells v a.x2 (cells_of index n))
          (values-at_cells v a.x1 (cells_of index n)) in
      (s, run, Encodes_map step (λ v p. same v ∙ p.0) (λ v q. (sym (same v) ∙ q, tt)))

  start-State :
      (u : Round) (a : SetUpResult n u) (s : Solver)
      → Encodes u.solver s (Model index n u a []) (Model index n u a [])
      → State index n u a s [] (all_lists n n)
  start-State u a s step = record {
    step = step;
    perms = tt;
    candidates = λ v held.
        let held_u = (step.sound v held).0 in
        subst (λ m. has (perm_of a v) (all_lists n m) ≡ true) (length-perm_of a v held_u)
          (has-all_lists n (perm_of a v) (perm_of-Maps a v held_u));
  }

  -- With a correct search, n > 0 and fuel above n ^ n, `compute` of a new object returns
  -- permutations of the first n numbers, and leaves the constraint solver as new. The string of a
  -- graph on n vertices is at most those of the graphs permuted by them exactly when it is the least
  -- among those of all graphs that are isomorphic to it.
  pub compute_permutations-Suffices :
      (search : Search)
      → IsCorrect search
      → (fuel : ℕ) → 0 < n
      → n ^ n < fuel
      → Returns
          (compute_permutations index (constraint_solver search) fuel n new_solver)
          λ r. All (IsPermutation n) r.0 × (r.1 ≡ new_solver) × Suffices r.0
  unfolding compute_permutations
  compute_permutations-Suffices search correct fuel pos_n enough =
      let (u, run, a) = set_up-SetUpResult n new_solver pos_n in
      let (s, run₁, step) = less-Encodes u a in
      let (r, run₂, done) =
        find_permutations-Finished index n u a search correct fuel s [] (all_lists n n)
          (start-State u a s step) (omega (arith, length-all_lists n n)) in
      (
        (r.0, new_model r.1),
        rw (start_permutations-set_up search n) (
            rw run (
              rw (indexing-string index n u.g1 a.x1 a.table1)
                (rw (indexing-string index n u.g2 a.x2 a.table2) (rw run₁ (rw run₂ refl))))),
        (
          done.perms,
          new_model-new_solver r.1,
          λ e graph. (
            refuted-IsLeast a r.0 r.1 done.step done.none done.perms e graph,
            IsLeast-IsAtMostAll e r.0 done.perms,
          ),
        ),
      )
