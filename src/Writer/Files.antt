-- ===== src/Writer/Files.antt =====
-- The files of core/CanonizingLexImplicationsAlg.cc: their names, and what `compute` and `extend`
-- write at their end.
use phd_thesis_src.Prelude.{
  ℕ, ◌^◌, ◌<◌, ◌≤◌, ◌≡◌, refl, List, [], ◌++◌, arith, All, All-mono, length, Result, ok, Returns,
  ◌>>=◌,
}
use phd_thesis_src.Text.{Bytes, codes, show_nat}
use phd_thesis_src.Sat.Semantics.{Search, IsCorrect}
use phd_thesis_src.Constraints.{Solver}
use phd_thesis_src.Canonizing.{
  CanonicalIndexing, upper_triangle_rows, upper_triangle_cols, LexImplication, max_len, compute,
  extend,
}
use phd_thesis_src.Canonizing.Main.{direct, incremental}
use phd_thesis_src.Canonizing.Start.{IsImplication}
use phd_thesis_src.Canonizing.Covers.{Covers}
use phd_thesis_src.Canonizing.Subgraph.{extend_subgraph}
use phd_thesis_src.Reducer.Texts.{Tool}
use phd_thesis_src.Reducer.{call_reduce, call_reduce_delta, call_reduce_delta_subgraph}
use phd_thesis_src.Reducer.Kept.{IsSound}
use phd_thesis_src.Reducer.Reduced.{compute-call_reduce}
use phd_thesis_src.Reducer.Delta.{extend-call_reduce_delta}
use phd_thesis_src.Writer.{write, write_subgraph}
use phd_thesis_src.Writer.Reader.{read_file}
use phd_thesis_src.Writer.RoundTrip.{AtMost, Plain, read_file-write}

abbrev prefix : ℕ → CanonicalIndexing → Bytes → Bytes
prefix n upper_triangle_rows rest = codes "leximps_" ++ show_nat n (codes "_rowise" ++ rest)
prefix n upper_triangle_cols rest = codes "leximps_" ++ show_nat n (codes "_colwise" ++ rest)

-- The names that the constructor makes.
pub direct_file_name : ℕ → CanonicalIndexing → Bytes
direct_file_name n index = prefix n index (codes "_direct.pl")

pub inc_file_name : ℕ → CanonicalIndexing → Bytes
inc_file_name n index = prefix n index (codes "_inc.pl")

pub subgraph_file_name : Bytes → Bytes
subgraph_file_name subgraph = codes "leximps_subgraph_" ++ (subgraph ++ codes ".pl")

-- What a method returns, and the name and the text of its file.
abbrev pub Output : Type 0
Output = List LexImplication × Bytes × Bytes

-- The text of a file stands for a set with which the given one is canonizing.
pub record FileStands (index : CanonicalIndexing) (n : ℕ) (given : List LexImplication)
    (out : Output) : Type 0 where
  pub implications : All (IsImplication index n) out.0
  pub covers : Covers index n (max_len n) (given ++ out.0)
  pub read :
      (width fuel : ℕ) → length out.0 ≤ fuel → n ≤ width → read_file width fuel out.2 ≡ ok out.0

module _ (index : CanonicalIndexing) (search : Search) (fuel : ℕ) (tool : Tool) (pid n : ℕ) where
  -- `compute` with its reducer and its file; `time` is the text of the elapsed time.
  pub compute_file : Bytes → Solver → Result Output
  unfolding direct_file_name
  compute_file time s =
      compute index search fuel (call_reduce tool pid index n) n s
      >>= (λ r. ok (r.0, direct_file_name n index, write n r.0 time direct index))

  pub extend_file : Bytes → List LexImplication → Solver → Result Output
  unfolding inc_file_name
  extend_file time given s =
      extend index search fuel (call_reduce_delta tool pid index n) n given s
      >>= (λ r. ok (r.0, inc_file_name n index, write n r.0 time incremental index))

  -- With a subgraph the term is added to the file, whose text was `file`.
  extend_subgraph_file : Bytes → Bytes → Bytes → List LexImplication → Solver → Result Output
  unfolding subgraph_file_name
  extend_subgraph_file subgraph time file given s =
      extend_subgraph index subgraph search fuel
        (call_reduce_delta_subgraph tool pid index subgraph n) n given s
      >>= (λ r. ok (
        r.0,
        subgraph_file_name subgraph,
        write_subgraph n r.0 time incremental index subgraph file,
      ))

  module _ (correct : IsCorrect search) (sound : IsSound tool) (pos_n : 0 < n)
      (enough : n ^ n < fuel) (time : Bytes) (plain : Plain time) (s : Solver) where
    narrow :
        (width : ℕ) (xs : List LexImplication)
        → n ≤ width
        → All (IsImplication index n) xs
        → AtMost width xs
    narrow width xs le h = All-mono _ _ (λ x i. omega (arith, i.3)) xs h

    -- With a correct search, a sound external program, n > 0, fuel above n ^ n and a text of the
    -- time with no bracket, `compute` returns a set of implications for n vertices, and writes a file
    -- from which the reader gets this set back, with fuels of at least its size and n. Every graph
    -- on n vertices that meets the set meets the implications of all lengths up to the number of
    -- pairs less one, for every permutation.
    pub compute_file-FileStands : Returns (compute_file time s) (FileStands index n [])
    unfolding compute_file
    compute_file-FileStands =
        let (r, run, (r_ok, covers)) =
          compute-call_reduce tool sound pid n index search correct fuel pos_n enough s in
        (
          (r.0, direct_file_name n index, write n r.0 time direct index),
          rw run refl,
          record {
            implications = r_ok;
            covers = covers;
            read = λ width fuel' le wide.
                read_file-write width fuel' n r.0 time direct index le (narrow width r.0 wide r_ok)
                  plain;
          },
        )

    -- With a correct search, a sound external program, n > 0, fuel above n ^ n, a text of the time
    -- with no bracket and a given set of implications for n vertices, `extend` returns a set of
    -- implications for n vertices, and writes a file from which the reader gets this set back, with
    -- fuels of at least its size and n. Every graph on n vertices that meets the given set and the
    -- one returned meets the implications of all lengths up to the number of pairs less one, for
    -- every permutation.
    pub extend_file-FileStands :
        (given : List LexImplication)
        → All (IsImplication index n) given
        → Returns (extend_file time given s) (FileStands index n given)
    unfolding extend_file
    extend_file-FileStands given given_ok =
        let (r, run, (r_ok, covers)) =
          extend-call_reduce_delta tool sound pid n index search correct fuel pos_n enough s given
            given_ok in
        (
          (r.0, inc_file_name n index, write n r.0 time incremental index),
          rw run refl,
          record {
            implications = r_ok;
            covers = covers;
            read = λ width fuel' le wide.
                read_file-write width fuel' n r.0 time incremental index le
                  (narrow width r.0 wide r_ok) plain;
          },
        )
