-- ===== src/Canonizing/Main/Whole.antt =====
-- The runs of core/Main.cc with the reducer of the program: `runDirect`, `runIncremental` and `main`.
use phd_thesis_src.Prelude.{
  ℕ, zero, suc, ◌-◌, ◌==◌, ◌^◌, ◌<◌, ◌≤◌, ◌≡◌, ◌⊎◌, refl, ap, false, List, [], arith, Option, some,
  Returns, Bool-cases, inl, inr, ltb,
}
use phd_thesis_src.Sat.Semantics.{Search, IsCorrect}
use phd_thesis_src.Constraints.{new_solver}
use phd_thesis_src.Canonizing.{CanonicalIndexing, LexImplication, max_len}
use phd_thesis_src.Canonizing.Least.{IsCanonizing, Covers-IsCanonizing, compute-IsCanonizing}
use phd_thesis_src.Canonizing.Main.{
  CompType, direct, incremental, Flag, Options, parse_input, initial_options, run_direct,
  run_incremental, incremental_from, main,
}
use phd_thesis_src.Canonizing.Main.Incremental.{run_incremental-IsCanonical}
use phd_thesis_src.Reducer.Texts.{Tool}
use phd_thesis_src.Reducer.{call_reduce, call_reduce_delta}
use phd_thesis_src.Reducer.Kept.{IsSound}
use phd_thesis_src.Reducer.Reduced.{call_reduce-Implies}
use phd_thesis_src.Reducer.Delta.{call_reduce_delta-Implies}

no_length : (n j : ℕ) → n < 3 → j < max_len n → ⊥
no_length zero j lt l = omega arith
no_length (suc zero) j lt l = omega arith
no_length (suc (suc zero)) j lt l = omega arith
no_length (suc (suc (suc n))) j lt l = omega arith

-- What `main` ends with: the exit code 0 and a canonizing set.
pub record Answer (o : Options) (r : ℕ × Option (List LexImplication)) : Type 0 where
  pub set : List LexImplication
  pub result : r ≡ (0, some set)
  pub canonizing : IsCanonizing o.index o.n set

comp_types : (c : CompType) → (c ≡ direct) ⊎ (c ≡ incremental)
comp_types direct = inl refl
comp_types incremental = inr refl

module _ (tool : Tool) (sound : IsSound tool) (pid : ℕ) (search : Search)
    (correct : IsCorrect search) (fuel : ℕ) where
  module _ (index : CanonicalIndexing) where
    -- With fewer than three vertices there is no round, and every graph is the least of its class.
    small :
        (n : ℕ)
        → n < 3
        → Returns
            (run_incremental search fuel (call_reduce_delta tool pid index) n index)
            (IsCanonizing index n)
    unfolding run_incremental incremental_from
    small n lt =
        let none : suc n - 3 ≡ 0 = omega arith in
        (
          [],
          ap (λ k. incremental_from search fuel (call_reduce_delta tool pid index) index 3 k [])
              none,
          Covers-IsCanonizing index n [] tt
              (λ e j perm graph meets l p. absurd (no_length n j lt l)),
        )

    -- With a sound external program, a correct search and fuel above m ^ m for all m up to n,
    -- `runIncremental` with the reducer of the program returns a set for which a graph on n vertices
    -- meets the set exactly when its string is the least among those of the graphs that are
    -- isomorphic to it.
    pub run_incremental-IsCanonizing :
        (n : ℕ)
        → ((m : ℕ) → m ≤ n → m ^ m < fuel)
        → Returns
            (run_incremental search fuel (call_reduce_delta tool pid index) n index)
            (IsCanonizing index n)
    run_incremental-IsCanonizing n enough = elim (Bool-cases (ltb n 3)) [
      | inl e ↦ let lt : n < 3 = ground arith in small n lt
      | inr e ↦
          let le : 3 ≤ n = ground arith in
          let (xs, run, (r, covers)) =
            run_incremental-IsCanonical index search correct (call_reduce_delta tool pid index)
              (λ n given h xs h'. call_reduce_delta-Implies tool sound pid n index given xs h h')
              fuel n le enough in
          (xs, run, Covers-IsCanonizing index n xs r covers)
    ]

    run_direct-IsCanonizing :
        (n : ℕ)
        → 0 < n
        → n ^ n < fuel
        → Returns
            (run_direct search fuel
              (call_reduce_delta tool pid index)
              n
              index
              (call_reduce tool pid index n))
            (IsCanonizing index n)
    unfolding run_direct
    run_direct-IsCanonizing n pos_n enough =
        let (r, run, least) =
          compute-IsCanonizing index n search correct fuel pos_n enough
            (call_reduce tool pid index n) (call_reduce-Implies tool sound pid n index)
            new_solver in
        (r.0, rw run refl, least)

  -- With a sound external program and a correct search, on options that are accepted, with a
  -- positive number n of vertices, no subgraph, and fuel above m ^ m for all m up to n, `main` with
  -- the reducer of the program ends with the exit code 0 and a set: a graph on n vertices meets it
  -- exactly when its string is the least among those of the graphs that are isomorphic to it.
  pub main-Answer :
      (flags : List Flag) (o : Options)
      → parse_input initial_options flags ≡ some o
      → o.subgraph ≡ []
      → 0 < o.n
      → ((m : ℕ) → m ≤ o.n → m ^ m < fuel)
      → Returns
          (main search fuel
            (call_reduce_delta tool pid o.index)
            (call_reduce tool pid o.index)
            flags)
          (Answer o)
  unfolding main
  main-Answer flags o parsed whole pos_n enough =
      let some_n : (o.n == 0) ≡ false = ground arith in
      elim (comp_types o.comp_type) [
        | inl e ↦
            let (xs, run, least) =
              run_direct-IsCanonizing o.index o.n pos_n (enough o.n (omega arith)) in
            (
              (0, some xs),
              rw (parsed, main) (rw some_n (rw whole (rw e (rw run refl)))),
              record { set = xs; result = refl; canonizing = least },
            )
        | inr e ↦
            let (xs, run, least) = run_incremental-IsCanonizing o.index o.n enough in
            (
              (0, some xs),
              rw (parsed, main) (rw some_n (rw whole (rw e (rw run refl)))),
              record { set = xs; result = refl; canonizing = least },
            )
      ]
