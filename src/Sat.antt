-- ===== src/Sat.antt =====
-- The interface of the SAT solver that the encoder calls (incremental/algorithm/core/Solver.h and
-- SolverTypes.h): literals, lifted Booleans, the solver object as its calls leave it.
pub mod Semantics
use phd_thesis_src.Prelude.{
  ℕ, suc, ◌+◌, ◌-◌, ◌*◌, ◌/◌, ◌%◌, ◌≡◌, Bool, true, false, List, [], ◌∷◌, ℤ, pos, negsuc, ◌==◌,
  if◌then◌else◌,
}

-- `struct Lit`: variable and sign in one integer.
pub record Lit : Type 0 where
  pub x : ℤ

-- `(int)sign`
abbrev to_int : Bool → ℕ
to_int true = 1
to_int false = 0

-- `var + var + (int)sign`
unfoldable pub mk_lit : ℤ → Bool → Lit
mk_lit (pos n) sign = record { x = pos (n + n + to_int sign) }
mk_lit (negsuc n) sign = record { x = negsuc (n + n + 1 - to_int sign) }

-- `n ^ 1`
abbrev flip : ℕ → ℕ
flip n = if n % 2 == 0 then n + 1 else n - 1

-- `p.x ^ 1`; a negative integer is the complement of a natural number.
unfoldable pub lit_not : Lit → Lit
lit_not p = record { x = elim p.x [ pos n ↦ pos (flip n) | negsuc n ↦ negsuc (flip n) ] }

pub data Lbool : Type 0 where
  l_true l_false l_undef : Lbool

-- `operator ^` of `lbool`
abbrev pub lbool_xor : Lbool → Bool → Lbool
lbool_xor l false = l
lbool_xor l_true true = l_false
lbool_xor l_false true = l_true
lbool_xor l_undef true = l_undef

-- The solver after a series of calls: its variables, the clauses it was given (the newest first),
-- and the model of the last successful search.
pub record Sat : Type 0 where
  pub n_vars : ℕ
  pub clauses : List (List Lit)
  pub model : List Lbool

abbrev pub new_sat : Sat
new_sat = record { n_vars = 0; clauses = []; model = [] }

abbrev pub new_var : Sat → Sat
new_var s = record s { n_vars = suc s.n_vars }

abbrev pub add_clause : List Lit → Sat → Sat
add_clause c s = record s { clauses = c ∷ s.clauses }

-- What `solveLimited` answers: `l_True` with a model, `l_False`, or `l_Undef`.
pub data Answer : Type 0 where
  sat : List Lbool → Answer
  unsat unknown : Answer
