-- ===== src/Order.antt =====
-- The lexicographic order on Boolean strings, and its implications. This is the specification of
-- the constraints of core/ConstraintSolver.cc, and not code.
pub mod Sums
pub mod Pigeonhole
pub mod Last
use phd_thesis_src.Prelude.{
  ℕ, zero, suc, ◌≡◌, ◌<◌, refl, Bool, true, false, not, ◌&&◌, ◌||◌, iff, List, [], ◌∷◌, arith,
  length,
}

abbrev pub lex_le : List Bool → List Bool → Bool
lex_le [] ys = true
lex_le (x ∷ xs) [] = false
lex_le (x ∷ xs) (y ∷ ys) = (not x && y) || (iff x y && lex_le xs ys)

abbrev pub lex_lt : List Bool → List Bool → Bool
lex_lt xs [] = false
lex_lt [] (y ∷ ys) = true
lex_lt (x ∷ xs) (y ∷ ys) = (not x && y) || (iff x y && lex_lt xs ys)

-- The strings agree before position `k`, and there the first has `false` and the second `true`.
abbrev pub less_at : ℕ → List Bool → List Bool → Bool
less_at k [] ys = false
less_at k (x ∷ xs) [] = false
less_at zero (x ∷ xs) (y ∷ ys) = not x && y
less_at (suc k) (x ∷ xs) (y ∷ ys) = iff x y && less_at k xs ys

-- If the strings agree before position `k`, then the first is at most the second there.
abbrev pub implied_at : ℕ → List Bool → List Bool → Bool
implied_at k [] ys = true
implied_at k (x ∷ xs) [] = true
implied_at zero (x ∷ xs) (y ∷ ys) = not x || y
implied_at (suc k) (x ∷ xs) (y ∷ ys) = not (iff x y) || implied_at k xs ys

pub implied_at-less_at : (k : ℕ) (xs ys : List Bool) → implied_at k xs ys ≡ not (less_at k ys xs)
implied_at-less_at k [] [] = refl
implied_at-less_at k [] (y ∷ ys) = refl
implied_at-less_at k (x ∷ xs) [] = refl
implied_at-less_at zero (x ∷ xs) (y ∷ ys) = ground arith
implied_at-less_at (suc k) (x ∷ xs) (y ∷ ys) = ground (arith, implied_at-less_at k xs ys)

-- Strings of one length are in strict order exactly when they are at some position.
lex_lt-less_at :
    (xs ys : List Bool)
    → length xs ≡ length ys
    → lex_lt xs ys ≡ true
    → (k : ℕ) × (k < length xs) × (less_at k xs ys ≡ true)
lex_lt-less_at [] [] e h = absurd (cc h)
lex_lt-less_at [] (y ∷ ys) e h = absurd (omega arith)
lex_lt-less_at (x ∷ xs) [] e h = absurd (omega arith)
lex_lt-less_at (false ∷ xs) (true ∷ ys) e h = (0, omega arith, refl)
lex_lt-less_at (true ∷ xs) (false ∷ ys) e h = absurd (cc h)
lex_lt-less_at (false ∷ xs) (false ∷ ys) e h =
    let (k, lt, p) = lex_lt-less_at xs ys (omega arith) h in (suc k, omega arith, p)
lex_lt-less_at (true ∷ xs) (true ∷ ys) e h =
    let (k, lt, p) = lex_lt-less_at xs ys (omega arith) h in (suc k, omega arith, p)

less_at-lex_lt : (k : ℕ) (xs ys : List Bool) → less_at k xs ys ≡ true → lex_lt xs ys ≡ true
less_at-lex_lt k [] ys h = ground arith
less_at-lex_lt k (x ∷ xs) [] h = ground arith
less_at-lex_lt zero (x ∷ xs) (y ∷ ys) h = ground arith
less_at-lex_lt (suc k) (x ∷ xs) (y ∷ ys) h = ground (arith, less_at-lex_lt k xs ys)

pub lex_le-lex_lt : (xs ys : List Bool) → length xs ≡ length ys → lex_le xs ys ≡ not (lex_lt ys xs)
lex_le-lex_lt [] [] e = refl
lex_le-lex_lt [] (y ∷ ys) e = absurd (omega arith)
lex_le-lex_lt (x ∷ xs) [] e = absurd (omega arith)
lex_le-lex_lt (x ∷ xs) (y ∷ ys) e = ground (arith, lex_le-lex_lt xs ys)

-- An edge or none for each pair of vertices.
abbrev pub Graph : Type 0
Graph = ℕ → ℕ → Bool

-- The first `n` vertices have a simple graph: no loops, and edges without direction.
pub record IsGraph (n : ℕ) (e : Graph) : Type 0 where
  pub no_loops : (i : ℕ) → i < n → e i i ≡ false
  pub symmetric : (i j : ℕ) → i < n → j < n → e i j ≡ e j i
