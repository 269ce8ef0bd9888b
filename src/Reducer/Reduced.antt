-- ===== src/Reducer/Reduced.antt =====
-- `reduce` of core/LexImplicationsReducer.cc with its constructor, and the algorithm of core/CanonizingLexImplicationsAlg.cc with the reducer in its place.
use phd_thesis_src.Prelude.{
  ℕ, ◌+◌, ◌-◌, ◌*◌, ◌^◌, ◌<◌, ◌≡◌, refl, sym, subst, List, [], ℤ, arith, All, length, Returns,
}
use phd_thesis_src.Text.{Bytes}
use phd_thesis_src.Sat.Semantics.{Valuation, Search, IsCorrect}
use phd_thesis_src.Order.{Graph, IsGraph}
use phd_thesis_src.Matrix.{Matrix}
use phd_thesis_src.Matrix.Strings.{IsTable}
use phd_thesis_src.Constraints.{Solver}
use phd_thesis_src.Constraints.Semantics.{IsRef}
use phd_thesis_src.Canonizing.{CanonicalIndexing, LexImplication, compute, max_len}
use phd_thesis_src.Canonizing.Start.{IsImplication, MeetsAll}
use phd_thesis_src.Canonizing.Covers.{Implies, Covers, compute-Covers}
use phd_thesis_src.Reducer.Construct.{
  LexImplicationsReducer, with_fields, new_reducer, new_reducer_subgraph,
}
use phd_thesis_src.Reducer.Texts.{Tool}
use phd_thesis_src.Canonizing.Subgraph.{int_sqrt}
use phd_thesis_src.Reducer.{write_tseiten, write_implications, reduce, call_reduce}
use phd_thesis_src.Reducer.Numbering.{IsNumbering, fill_rows-IsNumbering}
use phd_thesis_src.Reducer.Cache.{Numbered}
use phd_thesis_src.Reducer.Strings.{Off, ShowsGraph, string_lem}
use phd_thesis_src.Reducer.Files.{
  IsReady, Grows-IsReady, tseiten_set-SetResult, clause_set-ClausesResult,
}
use phd_thesis_src.Reducer.Kept.{IsSound, select-ImpliesIn}

module _ (index : CanonicalIndexing) (n m : ℕ) (g : Matrix ℤ) (x : ℕ → ℕ → ℤ) (t : IsTable n g x)
    (refs : Off n (λ i j. IsRef m (x i j)))
    (shows : (e : Graph) → IsGraph n e → (v : Valuation) × ShowsGraph n x v e) (tool : Tool)
    (sound : IsSound tool) where
  abbrev Ready : LexImplicationsReducer → Type 0
  Ready r = IsReady index n m g x t refs r

  reduce-Implies :
      (xs : List LexImplication) (r : LexImplicationsReducer)
      → All (IsImplication index n) xs
      → Ready r
      → Returns (reduce tool xs r) λ q. All (IsImplication index n) q.0 × Implies index n [] q.0 xs
  unfolding reduce write_tseiten write_implications
  reduce-Implies xs r h ready =
      let (p, run, (ts_ok, grows, follow)) =
        tseiten_set-SetResult index n m g x t refs xs r h ready in
      let ready' = Grows-IsReady index n m g x t refs r p.1 ready grows in
      let (c, run', written) = clause_set-ClausesResult index n m g x t refs xs p.1 h ready' in
      let (ys, run'', result) =
        select-ImpliesIn index n m g x t refs tool sound (MeetsAll index n []) xs h shows p.1 p.0
          (p.1.next_bool_id - 1)
          (length p.1.iff_reif_cache * 4
            + length xs
            + (length p.1.subgraph_str - int_sqrt (length p.1.subgraph_str)))
          ts_ok (λ v e i shown meets. follow v i) c written in
      (
        (ys, c.1),
        rw (string_lem index n m g x t refs r ready.0)
            (rw run (rw (string_lem index n m g x t refs p.1 ready'.0) (rw run' (rw run'' refl)))),
        result,
      )

-- A reducer for a subgraph whose matrix numbers the pairs of n vertices.
pub record IsNew (index : CanonicalIndexing) (n : ℕ) (text : Bytes) (r : LexImplicationsReducer)
    : Type 0 where
  pub numbers : IsNumbering n (r.next_bool_id - 1) r.adj_matrix
  same_index : r.index ≡ index
  pub positive : 0 < r.next_bool_id
  pub empty : r.iff_reif_cache ≡ []
  pub same_text : r.subgraph_str ≡ text

pub new_reducer-IsNew :
    (pid n : ℕ) (index : CanonicalIndexing) → Returns (new_reducer pid n index) (IsNew index n [])
unfolding new_reducer
new_reducer-IsNew pid n index =
    let (f, run, (positive, numbers)) = fill_rows-IsNumbering n in
    (
      with_fields pid index f,
      rw run refl,
      record {
        numbers = numbers;
        same_index = refl;
        positive = positive;
        empty = refl;
        same_text = refl;
      },
    )

pub new_reducer_subgraph-IsNew :
    (pid n : ℕ) (index : CanonicalIndexing) (text : Bytes)
    → Returns (new_reducer_subgraph pid n index text) (IsNew index n text)
unfolding new_reducer_subgraph
new_reducer_subgraph-IsNew pid n index text =
    let (r, run, new) = new_reducer-IsNew pid n index in
    (
      record r { subgraph_str = text },
      rw run refl,
      record {
        numbers = new.numbers;
        same_index = new.same_index;
        positive = new.positive;
        empty = new.empty;
        same_text = refl;
      },
    )

pub IsReady-new :
    (index : CanonicalIndexing) (n : ℕ) (text : Bytes) (r : LexImplicationsReducer)
    (h : IsNew index n text r)
    → IsReady index n (r.next_bool_id - 1) r.adj_matrix h.numbers.x h.numbers.table h.numbers.refs r
IsReady-new index n text r h = (
  (refl, h.same_index),
  subst (λ es. Numbered (r.next_bool_id - 1) r.next_bool_id es) (sym h.empty)
      (omega (arith, h.positive)),
)

module _ (tool : Tool) (sound : IsSound tool) (pid n : ℕ) (index : CanonicalIndexing) where
  -- With an external program that is sound, `reduce` of a new reducer on implications for n vertices
  -- returns implications for n vertices, which imply those that it was called with: every graph on n
  -- vertices that meets the former meets the latter.
  pub call_reduce-Implies :
      (xs : List LexImplication)
      → All (IsImplication index n) xs
      → Returns
          (call_reduce tool pid index n xs)
          λ ys. All (IsImplication index n) ys × Implies index n [] ys xs
  unfolding call_reduce
  call_reduce-Implies xs h =
      let (r, run, new) = new_reducer-IsNew pid n index in
      let a = new.numbers in
      let (q, run', result) =
        reduce-Implies index n (r.next_bool_id - 1) r.adj_matrix a.x a.table a.refs a.shows tool
          sound xs r h (IsReady-new index n [] r new) in
      (q.0, rw run (rw run' refl), result)

  module _ (search : Search) (correct : IsCorrect search) (fuel : ℕ) (pos_n : 0 < n)
      (enough : n ^ n < fuel) (s : Solver) where
    -- With a correct search, a sound external program, n > 0 and fuel above n ^ n, `compute` with the
    -- reducer of the program returns on any solver. Every graph on n vertices that meets the set
    -- returned meets the implications of all lengths up to the number of pairs less one, for every
    -- permutation.
    pub compute-call_reduce :
        Returns
          (compute index search fuel (call_reduce tool pid index n) n s)
          λ r. All (IsImplication index n) r.0 × Covers index n (max_len n) r.0
    compute-call_reduce =
        compute-Covers index n search correct fuel pos_n enough (call_reduce tool pid index n)
          call_reduce-Implies s
