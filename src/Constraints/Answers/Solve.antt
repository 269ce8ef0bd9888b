-- ===== src/Constraints/Answers/Solve.antt =====
-- `solve`: the two answers of a search without a budget.
use phd_thesis_src.Prelude.{◌≡◌, ◌⊎◌, inl, inr, refl, true, false, List, [], arith}
use phd_thesis_src.Sat.{Lbool, l_true, l_false, Answer, sat, unsat, unknown}
use phd_thesis_src.Sat.Semantics.{Valuation, Search, IsCorrect, truth}
use phd_thesis_src.Constraints.{Solver}
use phd_thesis_src.Constraints.Semantics.{holds, IsValid}
use phd_thesis_src.Constraints.Encodes.{Encodes, Always}
use phd_thesis_src.Constraints.Answers.{with_model, solve}
use phd_thesis_src.Constraints.Answers.Decode.{HasModel}

Answer-cases : (x : Answer) → ((m : List Lbool) × (x ≡ sat m)) ⊎ ((x ≡ unsat) ⊎ (x ≡ unknown))
Answer-cases (sat m) = inl (m, refl)
Answer-cases unsat = inr (inl refl)
Answer-cases unknown = inr (inr refl)

-- The model is no part of what the solver means.
pub with_model-Encodes :
    (m : List Lbool) (s : Solver) → IsValid s → Encodes s (with_model m s) Always Always
unfolding holds
with_model-Encodes m s h = record {
  valid = record {
    ids = h.ids;
    clauses = h.clauses;
    int_ids = h.int_ids;
    int_refs = h.int_refs;
    cache_refs = h.cache_refs;
    nonempty = h.nonempty;
    constant = h.constant;
    cache_sound = h.cache_sound;
  };
  grows = omega arith;
  ints_kept = λ i x e. e;
  sound = λ v t. (t, tt);
  complete = λ v t p. (v, λ i lt. refl, t);
}

-- What `solve` found: a model that has a value for each variable and makes the clauses true.
pub record Found (search : Search) (s : Solver) : Type 0 where
  pub model : List Lbool
  pub answer : solve search s ≡ (l_true, with_model model s)
  pub has_model : HasModel (with_model model s)
  pub held : holds (truth model) s ≡ true

-- What it refused: there is no model.
pub record Refuted (search : Search) (s : Solver) : Type 0 where
  pub answer : solve search s ≡ (l_false, with_model [] s)
  pub none : (v : Valuation) → holds v s ≡ false

-- With a correct search, on a valid solver, `solve` finds a model of the constraints, or there is
-- none.
pub solve_lem :
    (search : Search) (s : Solver)
    → IsCorrect search
    → IsValid s
    → Found search s ⊎ Refuted search s
unfolding solve holds
solve_lem search s correct h = elim (Answer-cases (search s.sat)) [
  | inl (m, e) ↦ inl (record {
    model = m;
    answer = rw (e, solve) refl;
    has_model = record {
      size = correct.size s.sat m h.clauses e;
      total = λ i lt. correct.total s.sat m i h.clauses e lt;
    };
    held = correct.sound s.sat m h.clauses e;
  })
  | inr (inl e) ↦
      inr (record { answer = rw (e, solve) refl; none = λ v. correct.refutes s.sat v h.clauses e })
  | inr (inr e) ↦ absurd (correct.answers s.sat h.clauses e)
]
