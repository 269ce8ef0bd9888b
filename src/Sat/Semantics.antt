-- ===== src/Sat/Semantics.antt =====
-- What clauses mean, and what is assumed of the search.
use phd_thesis_src.Prelude.{
  All, ℕ, ◌/◌, ◌%◌, ◌≡◌, ◌≢◌, Bool, true, false, not, List, pos, negsuc, ◌==◌, if◌then◌else◌, any,
  all, length, get_or, ◌<◌,
}
use phd_thesis_src.Sat.{Lit, Sat, Lbool, l_true, l_false, l_undef, Answer, sat, unsat, unknown}

-- A truth value for each variable of the solver.
abbrev pub Valuation : Type 0
Valuation = ℕ → Bool

-- A literal with a negative integer names no variable.
abbrev pub lit_value : Valuation → Lit → Bool
lit_value v p = elim p.x [
  | pos n ↦ if n % 2 == 0 then v (n / 2) else not (v (n / 2))
  | negsuc n ↦ false
]

-- Some literal of the clause is true.
unfoldable pub clause_holds : Valuation → List Lit → Bool
clause_holds v = any (lit_value v)

-- Every clause is true.
unfoldable pub all_hold : Valuation → List (List Lit) → Bool
all_hold v = all (clause_holds v)

abbrev pub is_true : Lbool → Bool
is_true l_true = true
is_true l_false = false
is_true l_undef = false

-- The valuation that a model stands for.
abbrev pub truth : List Lbool → Valuation
truth m i = is_true (get_or m i l_undef)

abbrev pub Search : Type 0
Search = Sat → Answer

-- Every literal of the clauses is one of a variable of the solver.
abbrev IsScoped : Sat → Type 0
IsScoped s = All (All (λ p. elim p.x [ pos k ↦ k / 2 < s.n_vars | negsuc k ↦ ⊥ ])) s.clauses

-- The documented behaviour of `solveLimited` with no budget set, on clauses over the solver's
-- variables: it answers, a model it gives has a value for each variable and makes the clauses true,
-- and it refuses only what has no model.
pub record IsCorrect (search : Search) : Type 0 where
  pub answers : (s : Sat) → IsScoped s → search s ≢ unknown
  pub size : (s : Sat) (m : List Lbool) → IsScoped s → search s ≡ sat m → length m ≡ s.n_vars
  pub total :
      (s : Sat) (m : List Lbool) (i : ℕ)
      → IsScoped s
      → search s ≡ sat m
      → i < s.n_vars
      → get_or m i l_undef ≢ l_undef
  pub sound :
      (s : Sat) (m : List Lbool)
      → IsScoped s
      → search s ≡ sat m
      → all_hold (truth m) s.clauses ≡ true
  pub refutes :
      (s : Sat) (v : Valuation) → IsScoped s → search s ≡ unsat → all_hold v s.clauses ≡ false
