-- ===== src/Canonizing/Subgraph/Embed.antt =====
-- The loop "embed subgraph": the graphs that contain the subgraph.
use phd_thesis_src.Prelude.{
  ℕ, zero, suc, ◌+◌, ◌*◌, ◌/◌, ◌%◌, ◌==◌, leb, ◌<◌, ◌≤◌, ◌≡◌, refl, sym, ap, ◌∙◌, not, List, [],
  ◌∷◌, arith, length, Returns, Bool-cases, inl, inr,
}
use native.Mathlib.Nat.{div-lt_iff_lt-mul, mod-lt}
use phd_thesis_src.Sat.Semantics.{Valuation}
use phd_thesis_src.Order.{Graph}
use phd_thesis_src.Matrix.{Matrix}
use phd_thesis_src.Matrix.Cells.{get_lem}
use phd_thesis_src.Matrix.Strings.{IsTable}
use phd_thesis_src.Constraints.{BoolVarRef, Solver, set_bool_var}
use phd_thesis_src.Constraints.Semantics.{Agree, vars, IsValid, IsRef-mono, ref_value_congr}
use phd_thesis_src.Constraints.Encodes.{Encodes, Encodes_then, Encodes_map, unchanged}
use phd_thesis_src.Constraints.Lex.Implication.{set_true}
use phd_thesis_src.Constraints.Graphs.Filled.{SameGraph}
use phd_thesis_src.Constraints.Graphs.Pairs.{table}
use phd_thesis_src.Canonizing.Impose.{AreRefs}
use phd_thesis_src.Canonizing.Subgraph.{sqrt_upto, int_sqrt, embed}

sqrt_upto_lem : (b k : ℕ) → k ≤ b → sqrt_upto b (k * k) ≡ k
sqrt_upto_lem zero k h = omega arith
sqrt_upto_lem (suc b) k h = elim (Bool-cases (leb (suc b * suc b) (k * k))) [
  | inl e ↦
      let le : suc b * suc b ≤ k * k = ground arith in let at : suc b ≡ k = grind arith in rw e at
  | inr e ↦
      let lt : k * k < suc b * suc b = ground arith in
      let le : k ≤ b = grind arith in rw e (sqrt_upto_lem b k le)
]

-- The root of the length of a text with k rows of length k.
pub int_sqrt-square : (k : ℕ) → int_sqrt (k * k) ≡ k
int_sqrt-square k = sqrt_upto_lem (k * k) k (grind arith)

side-pos : (j k : ℕ) → j < k * k → 0 < k
side-pos j zero h = absurd (omega arith)
side-pos j (suc k) h = omega arith

-- The character at `j` is that of row j / k and column j % k.
pub row-lt : (j k : ℕ) → j < k * k → j / k < k
row-lt j k h = (div-lt_iff_lt-mul (side-pos j k h)).1 h

pub column-lt : (j k : ℕ) → j < k * k → j % k < k
column-lt j k h = mod-lt j (side-pos j k h)

-- The graph has the edges that the text gives from character `j` on.
abbrev pub HasFrom : ℕ → ℕ → List ℕ → Graph → Type 0
HasFrom k j [] e = Unit {0}
HasFrom k j (c ∷ cs) e = (e (j / k) (j % k) ≡ not (c == 48)) × HasFrom k (suc j) cs e

-- The first k vertices of the graph have the edges that a text with k rows of length k gives.
abbrev pub Contains : List ℕ → Graph → Type 0
Contains text e = HasFrom (int_sqrt (length text)) 0 text e

HasFrom-same :
    (n k j : ℕ) (cs : List ℕ) (e f : Graph)
    → k ≤ n
    → j + length cs ≤ k * k
    → SameGraph n e f
    → HasFrom k j cs e
    → HasFrom k j cs f
HasFrom-same n k j [] e f le fits same h = tt
HasFrom-same n k j (c ∷ cs) e f le fits same h =
    let inside : j < k * k = omega arith in
    (
      sym (
            same (j / k) (j % k) (omega (arith, row-lt j k inside))
              (omega (arith, column-lt j k inside)))
          ∙ h.0,
      HasFrom-same n k (suc j) cs e f le (omega arith) same h.1,
    )

module _ (n : ℕ) (g : Matrix BoolVarRef) (x : ℕ → ℕ → BoolVarRef) (t : IsTable n g x) where
  HasFrom-congr :
      (s : Solver) (k j : ℕ) (cs : List ℕ) (v w : Valuation)
      → k ≤ n
      → j + length cs ≤ k * k
      → AreRefs n s x
      → Agree (vars s) v w
      → HasFrom k j cs (table v x)
      → HasFrom k j cs (table w x)
  HasFrom-congr s k j cs v w le fits refs agree h =
      HasFrom-same n k j cs (table v x) (table w x) le fits
        (λ a b p q. ref_value_congr v w (x a b) agree (refs a b p q)) h

  embed_from-Encodes :
      (k j : ℕ) (cs : List ℕ) (s : Solver)
      → k ≤ n
      → j + length cs ≤ k * k
      → IsValid s
      → AreRefs n s x
      → Returns
          (embed k j cs g s)
          λ s'. Encodes s s' (λ v. HasFrom k j cs (table v x)) (λ v. HasFrom k j cs (table v x))
  unfolding embed
  embed_from-Encodes k j [] s le fits h refs =
      (s, refl, Encodes_map (unchanged s h) (λ v p. tt) (λ v q. tt))
  embed_from-Encodes k j (c ∷ cs) s le fits h refs =
      let inside : j < k * k = omega arith in
      let row : j / k < n = omega (arith, row-lt j k inside) in
      let column : j % k < n = omega (arith, column-lt j k inside) in
      let here = x (j / k) (j % k) in
      let val = not (c == 48) in
      let one = set_true here val s h (refs (j / k) (j % k) row column) in
      let refs' =
        λ (a b : ℕ) (p : a < n) (q : b < n). IsRef-mono (x a b) one.grows (refs a b p q) in
      let (s', run, rest) =
        embed_from-Encodes k (suc j) cs (set_bool_var here val s) le (omega arith) one.valid
          refs' in
      (
        s',
        rw (get_lem g (j / k) (j % k) here (t.cells (j / k) (j % k) row column)) run,
        Encodes_map
            (Encodes_then (λ v. HasFrom k j (c ∷ cs) (table v x)) one rest (λ v p. p.0)
              (λ v w p agree q. HasFrom-congr s k (suc j) cs v w le (omega arith) refs agree p.1))
            (λ v p. p) (λ v q. q),
      )

-- A text with k rows of length k, for at most n vertices.
module _ (n k : ℕ) (text : List ℕ) (square : length text ≡ k * k) (le : k ≤ n) where
  root : int_sqrt (length text) ≡ k
  root = ap int_sqrt square ∙ int_sqrt-square k

  pub root_le : int_sqrt (length text) ≤ n
  root_le = omega (arith, root)

  pub root_fits : 0 + length text ≤ int_sqrt (length text) * int_sqrt (length text)
  root_fits = rw root (omega arith)

  pub Contains-same : (e f : Graph) → SameGraph n e f → Contains text e → Contains text f
  Contains-same e f same h =
      HasFrom-same n (int_sqrt (length text)) 0 text e f root_le root_fits same h

  Contains-congr :
      (s : Solver) (x : ℕ → ℕ → BoolVarRef) (v w : Valuation)
      → AreRefs n s x
      → Agree (vars s) v w
      → Contains text (table v x)
      → Contains text (table w x)
  Contains-congr s x v w refs agree h =
      Contains-same (table v x) (table w x)
        (λ a b p q. ref_value_congr v w (x a b) agree (refs a b p q)) h

  -- The models are those in which the graph contains the subgraph.
  pub embed-Encodes :
      (g : Matrix BoolVarRef) (x : ℕ → ℕ → BoolVarRef) (s : Solver)
      → IsTable n g x
      → IsValid s
      → AreRefs n s x
      → Returns
          (embed (int_sqrt (length text)) 0 text g s)
          λ s'. Encodes s s' (λ v. Contains text (table v x)) (λ v. Contains text (table v x))
  embed-Encodes g x s t h refs =
      embed_from-Encodes n g x t (int_sqrt (length text)) 0 text s root_le root_fits h refs
