-- ===== src/Order/Last.antt =====
-- Strings with equally many ones: all positions but the last decide their order.
use phd_thesis_src.Prelude.{
  ℕ, zero, suc, ◌<◌, ◌≡◌, refl, Bool, true, false, List, [], ◌∷◌, arith, length,
}
use phd_thesis_src.Order.{lex_le, implied_at}
use phd_thesis_src.Constraints.Ints.Single.{ones}

pub implied_at-lex_le :
    (xs ys : List Bool)
    → length xs ≡ length ys
    → ones xs ≡ ones ys
    → ((j : ℕ) → suc j < length xs → implied_at j xs ys ≡ true)
    → lex_le xs ys ≡ true
implied_at-lex_le [] ys len same h = refl
implied_at-lex_le (x ∷ xs) [] len same h = absurd (omega arith)
implied_at-lex_le (false ∷ xs) (true ∷ ys) len same h = refl
implied_at-lex_le (false ∷ xs) (false ∷ ys) len same h =
    implied_at-lex_le xs ys (omega arith) (omega arith) (λ j p. h (suc j) (omega arith))
implied_at-lex_le (true ∷ xs) (true ∷ ys) len same h =
    implied_at-lex_le xs ys (omega arith) (omega arith) (λ j p. h (suc j) (omega arith))
implied_at-lex_le (true ∷ []) (false ∷ []) len same h = absurd (omega arith)
implied_at-lex_le (true ∷ []) (false ∷ y ∷ ys) len same h = absurd (omega arith)
implied_at-lex_le (true ∷ x ∷ xs) (false ∷ ys) len same h = absurd (cc (h 0 (omega arith)))

pub lex_le-implied_at :
    (j : ℕ) (xs ys : List Bool) → lex_le xs ys ≡ true → implied_at j xs ys ≡ true
lex_le-implied_at j [] ys h = refl
lex_le-implied_at j (x ∷ xs) [] h = refl
lex_le-implied_at zero (x ∷ xs) (y ∷ ys) h = ground arith
lex_le-implied_at (suc j) (x ∷ xs) (y ∷ ys) h = ground (arith, lex_le-implied_at j xs ys)
