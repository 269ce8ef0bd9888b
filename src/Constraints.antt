-- ===== src/Constraints.antt =====
-- core/ConstraintSolver.cc: constraints over Boolean variables, encoded into clauses.
pub mod Semantics
pub mod Encodes
pub mod Clauses
pub mod Fresh
pub mod Initial
pub mod Offers
pub mod Gates
pub mod Cardinality
pub mod Arrays
pub mod IffCache
pub mod Lex
pub mod Ints
pub mod Graphs
pub mod Answers
pub mod Interface
mod Tests
use phd_thesis_src.Prelude.{
  ℕ, zero, suc, ◌+◌, ◌-◌, ◌≡◌, Bool, true, false, ◌&&◌, List, [], ◌∷◌, map, ℤ, pos, negsuc, neg_ℤ,
  abs, ◌==ℤ◌, sub_ℕ, if◌then◌else◌, Option, none, some,
}
use phd_thesis_src.Sat.{Lit, mk_lit, lit_not, Sat, new_sat, new_var, add_clause}

-- `IntVarRef` is an index into `m_ints`; `BoolVarRef` is a signed number, negative for a negation.
abbrev pub BoolVarRef : Type 0
BoolVarRef = ℤ

abbrev pub IntVarRef : Type 0
IntVarRef = ℕ

pub record IntVar : Type 0 where
  pub lb : ℤ
  pub ub : ℤ
  pub bools : List BoolVarRef

-- The fields of the class. The `std::map` is an association list, the newest entry first.
pub record Solver : Type 0 where
  pub sat : Sat
  pub next_bool_id : ℕ
  pub ints : List IntVar
  pub next_int_id : ℕ
  pub iff_reif_cache : List ((BoolVarRef × BoolVarRef) × BoolVarRef)

abbrev pub neg : BoolVarRef → BoolVarRef
neg b = neg_ℤ b

abbrev pub true_const : BoolVarRef
true_const = pos 1

abbrev pub false_const : BoolVarRef
false_const = negsuc 0

-- `b > 0`
abbrev is_positive : ℤ → Bool
is_positive (pos zero) = false
is_positive (pos (suc n)) = true
is_positive (negsuc n) = false

pub to_lit : BoolVarRef → Lit
unfolding mk_lit lit_not
to_lit b =
    let var = sub_ℕ (abs b) 1 in
    if is_positive b then mk_lit var false else lit_not (mk_lit var false)

pub new_bool_var : Solver → BoolVarRef × Solver
new_bool_var s =
    (pos s.next_bool_id, record s { sat = new_var s.sat; next_bool_id = suc s.next_bool_id })

-- `push_back( newBoolVar() )`, `n` times.
pub new_bool_vars : ℕ → Solver → List BoolVarRef × Solver
unfolding new_bool_var
new_bool_vars zero s = ([], s)
new_bool_vars (suc n) s =
    let (t, s₁) = new_bool_var s in let (ts, s₂) = new_bool_vars n s₁ in (t ∷ ts, s₂)

-- `m_satSolver->addClause`
abbrev pub post : List Lit → Solver → Solver
post c s = record s { sat = add_clause c s.sat }

-- Also `boolArrayOr`, which calls it.
pub at_least_one : List BoolVarRef → Solver → Solver
at_least_one bools = post (map to_lit bools)

abbrev pub bool_array_or : List BoolVarRef → Solver → Solver
bool_array_or bools = at_least_one bools

pub bool_or₂ : BoolVarRef → BoolVarRef → Solver → Solver
bool_or₂ b₁ b₂ = post (to_lit b₁ ∷ to_lit b₂ ∷ [])

pub bool_or₃ : BoolVarRef → BoolVarRef → BoolVarRef → Solver → Solver
bool_or₃ b₁ b₂ b₃ = post (to_lit b₁ ∷ to_lit b₂ ∷ to_lit b₃ ∷ [])

pub set_bool_var : BoolVarRef → Bool → Solver → Solver
set_bool_var b true = post (to_lit b ∷ [])
set_bool_var b false = post (lit_not (to_lit b) ∷ [])

-- The constructor, and `newModel`, which leaves a solver in the same state.
pub new_solver : Solver
unfolding new_bool_var
new_solver =
    let empty : Solver = record {
      sat = new_sat;
      next_bool_id = 1;
      ints = [];
      next_int_id = 0;
      iff_reif_cache = [];
    } in
    let (t, s) = new_bool_var empty in post (to_lit t ∷ []) s

pub new_model : Solver → Solver
unfolding new_bool_var
new_model s =
    let cleared : Solver = record s {
      ints = [];
      iff_reif_cache = [];
      next_bool_id = 1;
      next_int_id = 0;
      sat = new_sat;
    } in
    let (t, s') = new_bool_var cleared in post (to_lit t ∷ []) s'
