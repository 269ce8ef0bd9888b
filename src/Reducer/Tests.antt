-- ===== src/Reducer/Tests.antt =====
-- Runs of the reducer with a program that keeps all clauses.
use phd_thesis_src.Prelude.{
  ℕ, zero, suc, ◌+◌, ◌-◌, ◌<◌, ◌≡◌, refl, ap, ◌∙◌, List, [], ◌∷◌, ◌++◌, map, ℤ, pos, negsuc, ◌==◌,
  if◌then◌else◌, arith, All, All-mono, length, Returns,
}
use phd_thesis_src.Text.{Bytes, codes, show_nat, show_int}
use phd_thesis_src.Text.Numbers.{show_nat-append, show_nat-All}
use phd_thesis_src.Text.Lines.{InLine}
use phd_thesis_src.Sat.Semantics.{Valuation}
use phd_thesis_src.Constraints.{new_solver}
use phd_thesis_src.Canonizing.{compute, extend, max_len}
use phd_thesis_src.Canonizing.Start.{IsImplication}
use phd_thesis_src.Canonizing.Covers.{Implies, Covers}
use phd_thesis_src.Canonizing.Tests.{cols, swap, swap-IsImplication}
use phd_thesis_src.Canonizing.Tests.Brute.{brute_search, brute_search-IsCorrect}
use phd_thesis_src.Reducer.Texts.{Tool, header_text, clause_text, clauses_text}
use phd_thesis_src.Reducer.{call_reduce, call_reduce_delta, call_reduce_delta_subgraph}
use phd_thesis_src.Reducer.Output.{indices_text}
use phd_thesis_src.Reducer.Gates.{Holds}
use phd_thesis_src.Reducer.Kept.{IsSound, clause_at}
use phd_thesis_src.Reducer.Reduced.{call_reduce-Implies, compute-call_reduce}
use phd_thesis_src.Reducer.Delta.{
  call_reduce_delta-Implies, call_reduce_delta_subgraph-ImpliesOn, extend-call_reduce_delta,
}
use phd_thesis_src.Canonizing.Subgraph.Complete.{ImpliesOn}

-- The number of line ends.
abbrev pub count : Bytes → ℕ
count [] = 0
count (c ∷ cs) = (if c == b'\n' then 1 else 0) + count cs

count-append : (w rest : Bytes) → All InLine w → count (w ++ rest) ≡ count rest
count-append [] rest h = refl
count-append (c ∷ w) rest h = rw (h.0) (omega (arith, count-append w rest h.1))

count-show_nat : (n : ℕ) (rest : Bytes) → count (show_nat n rest) ≡ count rest
count-show_nat n rest =
    ap count (show_nat-append n rest)
    ∙ count-append (show_nat n []) rest (show_nat-All n [] InLine (λ d lt. ground arith) tt)

count-show_int : (z : ℤ) (rest : Bytes) → count (show_int z rest) ≡ count rest
unfolding show_int
count-show_int (pos n) rest = count-show_nat n rest
count-show_int (negsuc n) rest = omega (arith, count-show_nat (suc n) rest)

count-clause_text : (c : List ℤ) (rest : Bytes) → count (clause_text c rest) ≡ suc (count rest)
unfolding clause_text
count-clause_text [] rest = omega arith
count-clause_text (l ∷ ls) rest =
    count-show_int l (b' ' ∷ clause_text ls rest) ∙ omega (arith, count-clause_text ls rest)

count-clauses_text : (cs : List (List ℤ)) → count (clauses_text cs []) ≡ length cs
unfolding clauses_text
count-clauses_text [] = refl
count-clauses_text (c ∷ cs) =
    count-clause_text c (clauses_text cs []) ∙ ap suc (count-clauses_text cs)

count-header_text :
    (vars clauses : ℕ) (rest : Bytes) → count (header_text vars clauses rest) ≡ suc (count rest)
unfolding header_text
count-header_text vars clauses rest =
    count-append (codes "p cnf ") (show_nat vars (b' ' ∷ show_nat clauses (b'\n' ∷ rest)))
      (refl, (refl, (refl, (refl, (refl, (refl, tt))))))
    ∙ count-show_nat vars (b' ' ∷ show_nat clauses (b'\n' ∷ rest))
    ∙ omega (arith, count-show_nat clauses (b'\n' ∷ rest))

abbrev pub positions : ℕ → List ℕ
positions zero = []
positions (suc n) = 0 ∷ map suc (positions n)

-- The program that keeps every clause of the second file, one for each line after the header.
abbrev pub keep_all : Tool
keep_all line ts imp = indices_text (positions (count imp - 1))

All-map : (P : ℕ → Type 0) (xs : List ℕ) → All (λ k. P (suc k)) xs → All P (map suc xs)
All-map P [] h = tt
All-map P (x ∷ xs) h = (h.0, All-map P xs h.1)

All-unmap : (P : ℕ → Type 0) (xs : List ℕ) → All P (map suc xs) → All (λ k. P (suc k)) xs
All-unmap P [] h = tt
All-unmap P (x ∷ xs) h = (h.0, All-unmap P xs h.1)

positions-lt : (n : ℕ) → All (λ k. k < n) (positions n)
positions-lt zero = tt
positions-lt (suc n) = (
  omega arith,
  All-map (λ k. k < suc n) (positions n)
      (All-mono _ _ (λ k lt. omega arith) (positions n) (positions-lt n)),
)

positions_at :
    (v : Valuation) (cs : List (List ℤ))
    → All (λ k. Holds v (clause_at cs k)) (positions (length cs))
    → All (Holds v) cs
positions_at v [] h = tt
positions_at v (c ∷ cs) h = (
  h.0,
  positions_at v cs (All-unmap (λ k. Holds v (clause_at (c ∷ cs) k)) (positions (length cs)) h.1),
)

pub keep_all-IsSound : IsSound keep_all
keep_all-IsSound line ts imp vars clauses ts_ok imp_ok =
    let size : count (header_text vars clauses (clauses_text imp [])) - 1 ≡ length imp =
      omega (arith, count-header_text vars clauses (clauses_text imp []), count-clauses_text imp) in
    record {
      ks = positions (length imp);
      text = ap (λ k. indices_text (positions k)) size;
      inside = positions-lt (length imp);
      implies = λ v h kept. positions_at v imp kept;
    }

call_reduce-Implies_example :
    Returns
      (call_reduce keep_all 7 cols 3 (swap ∷ []))
      λ ys. All (IsImplication cols 3) ys × Implies cols 3 [] ys (swap ∷ [])
call_reduce-Implies_example =
    call_reduce-Implies keep_all keep_all-IsSound 7 3 cols (swap ∷ []) swap-IsImplication

call_reduce_delta-Implies_example :
    Returns
      (call_reduce_delta keep_all 7 cols 3 (swap ∷ []) (swap ∷ []))
      λ ys. All (IsImplication cols 3) ys × Implies cols 3 (swap ∷ []) ys (swap ∷ [])
call_reduce_delta-Implies_example =
    call_reduce_delta-Implies keep_all keep_all-IsSound 7 3 cols (swap ∷ []) (swap ∷ [])
      swap-IsImplication swap-IsImplication

-- The subgraph with the rows 01 and 10.
abbrev pub edge : Bytes
edge = 48 ∷ 49 ∷ 49 ∷ 48 ∷ []

call_reduce_delta_subgraph-ImpliesOn_example :
    Returns
      (call_reduce_delta_subgraph keep_all 7 cols edge 3 (swap ∷ []) (swap ∷ []))
      λ ys. All (IsImplication cols 3) ys × ImpliesOn cols edge 3 (swap ∷ []) ys (swap ∷ [])
call_reduce_delta_subgraph-ImpliesOn_example =
    call_reduce_delta_subgraph-ImpliesOn keep_all keep_all-IsSound 7 3 cols 2 edge refl
      (omega arith) (swap ∷ []) (swap ∷ []) swap-IsImplication swap-IsImplication

compute-call_reduce_example :
    Returns
      (compute cols brute_search 28 (call_reduce keep_all 7 cols 3) 3 new_solver)
      λ r. All (IsImplication cols 3) r.0 × Covers cols 3 (max_len 3) r.0
compute-call_reduce_example =
    compute-call_reduce keep_all keep_all-IsSound 7 3 cols brute_search brute_search-IsCorrect 28
      (omega arith) (omega arith) new_solver

extend-call_reduce_delta_example :
    Returns
      (extend cols brute_search 28 (call_reduce_delta keep_all 7 cols 3) 3 (swap ∷ []) new_solver)
      λ r. All (IsImplication cols 3) r.0 × Covers cols 3 (max_len 3) (swap ∷ r.0)
extend-call_reduce_delta_example =
    extend-call_reduce_delta keep_all keep_all-IsSound 7 3 cols brute_search brute_search-IsCorrect
      28 (omega arith) (omega arith) new_solver (swap ∷ []) swap-IsImplication
