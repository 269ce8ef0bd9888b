-- ===== src/Canonizing/Tests/Brute.antt =====
-- A search that tries every assignment: `IsCorrect` can hold.
use phd_thesis_src.Prelude.{
  ℕ, zero, suc, ◌+◌, ◌<◌, ◌≡◌, ◌≢◌, refl, sym, subst, ◌∙◌, Bool, true, false, List, [], ◌∷◌, ◌++◌,
  arith, All, length, length-append, get_or, if◌then◌else◌, Bool-cases, inl, inr,
}
use phd_thesis_src.Sat.{Lit, Sat, Lbool, l_true, l_false, l_undef, Answer, sat, unsat, unknown}
use phd_thesis_src.Sat.Semantics.{Valuation, Search, IsCorrect, truth, all_hold}
use phd_thesis_src.Constraints.Semantics.{IsLit, all_hold_congr}
use phd_thesis_src.Constraints.Answers.Decode.{lbool_of}

abbrev either : Answer → Answer → Answer
either (sat m) y = sat m
either unsat y = y
either unknown y = unknown

-- The assignments that begin with `m` and give values to `k` more variables.
brute : ℕ → List Lbool → List (List Lit) → Answer
brute zero m cs = if all_hold (truth m) cs then sat m else unsat
brute (suc k) m cs = either (brute k (m ++ (l_true ∷ [])) cs) (brute k (m ++ (l_false ∷ [])) cs)

pub brute_search : Search
unfolding brute
brute_search s = brute s.n_vars [] s.clauses

-- Every entry is a value.
abbrev Assigned : List Lbool → Type 0
Assigned m = (i : ℕ) → i < length m → get_or m i l_undef ≢ l_undef

Assigned-append : (m : List Lbool) (b : Bool) → Assigned m → Assigned (m ++ (lbool_of b ∷ []))
Assigned-append [] true h zero lt e = absurd (cc e)
Assigned-append [] false h zero lt e = absurd (cc e)
Assigned-append [] b h (suc i) lt e = absurd (omega arith)
Assigned-append (l ∷ m) b h zero lt e = h 0 (omega arith) e
Assigned-append (l ∷ m) b h (suc i) lt e =
    Assigned-append m b (λ j l'. h (suc j) (omega arith)) i (omega arith) e

abbrev Good : ℕ → List (List Lit) → Answer → Type 0
Good n cs x = elim x [
  | sat m ↦ (length m ≡ n) × Assigned m × (all_hold (truth m) cs ≡ true)
  | unsat ↦ Unit
  | unknown ↦ ⊥
]

-- The valuation agrees with the values that are given.
abbrev Extends : List Lbool → Valuation → Type 0
Extends m v = (i : ℕ) → i < length m → truth m i ≡ v i

Good-either :
    (n : ℕ) (cs : List (List Lit)) (x y : Answer)
    → Good n cs x
    → Good n cs y
    → Good n cs (either x y)
Good-either n cs (sat m) y h g = h
Good-either n cs unsat y h g = g
Good-either n cs unknown y h g = h

either-unsat : (x y : Answer) → either x y ≡ unsat → (x ≡ unsat) × (y ≡ unsat)
either-unsat (sat m) y h = absurd (cc h)
either-unsat unsat y h = (refl, h)
either-unsat unknown y h = absurd (cc h)

brute-Good :
    (k n : ℕ) (m : List Lbool) (cs : List (List Lit))
    → length m + k ≡ n
    → Assigned m
    → Good n cs (brute k m cs)
unfolding brute
brute-Good zero n m cs e h = elim (Bool-cases (all_hold (truth m) cs)) [
  | inl t ↦ rw t (omega arith, h, t)
  | inr f ↦ rw f tt
]
brute-Good (suc k) n m cs e h =
    Good-either n cs (brute k (m ++ (l_true ∷ [])) cs) (brute k (m ++ (l_false ∷ [])) cs)
      (brute-Good k n (m ++ (l_true ∷ [])) cs (omega (arith, length-append m (l_true ∷ [])))
        (Assigned-append m true h))
      (brute-Good k n (m ++ (l_false ∷ [])) cs (omega (arith, length-append m (l_false ∷ [])))
        (Assigned-append m false h))

Extends-append :
    (m : List Lbool) (v : Valuation) (b : Bool)
    → Extends m v
    → v (length m) ≡ b
    → Extends (m ++ (lbool_of b ∷ [])) v
Extends-append [] v true h e zero lt = sym e
Extends-append [] v false h e zero lt = sym e
Extends-append [] v b h e (suc i) lt = absurd (omega arith)
Extends-append (l ∷ m) v b h e zero lt = h 0 (omega arith)
Extends-append (l ∷ m) v b h e (suc i) lt =
    Extends-append m (λ j. v (suc j)) b (λ j l'. h (suc j) (omega arith)) e i (omega arith)

brute-refutes :
    (k n : ℕ) (m : List Lbool) (cs : List (List Lit)) (v : Valuation)
    → length m + k ≡ n
    → All (All (IsLit n)) cs
    → Extends m v
    → brute k m cs ≡ unsat
    → all_hold v cs ≡ false
unfolding brute
brute-refutes zero n m cs v e scope ext h = elim (Bool-cases (all_hold (truth m) cs)) [
  | inl t ↦ absurd (ground (arith, t, h))
  | inr f ↦ sym (all_hold_congr (truth m) v (λ i (lt : i < n). ext i (omega arith)) cs scope) ∙ f
]
brute-refutes (suc k) n m cs v e scope ext h =
    let (h_true, h_false) =
      either-unsat (brute k (m ++ (l_true ∷ [])) cs) (brute k (m ++ (l_false ∷ [])) cs) h in
    elim (Bool-cases (v (length m))) [
      | inl t ↦
          brute-refutes k n (m ++ (l_true ∷ [])) cs v (omega (arith, length-append m (l_true ∷ [])))
            scope (Extends-append m v true ext t) h_true
      | inr f ↦
          brute-refutes k n (m ++ (l_false ∷ [])) cs v
            (omega (arith, length-append m (l_false ∷ []))) scope (Extends-append m v false ext f)
            h_false
    ]

brute_search-Good : (s : Sat) → Good s.n_vars s.clauses (brute_search s)
unfolding brute_search
brute_search-Good s =
    brute-Good s.n_vars s.n_vars [] s.clauses (omega arith) (λ i lt. absurd (omega arith))

pub brute_search-IsCorrect : IsCorrect brute_search
unfolding brute_search
brute_search-IsCorrect = record {
  answers = λ s scope e. subst (Good s.n_vars s.clauses) e (brute_search-Good s);
  size = λ s m scope e. (subst (Good s.n_vars s.clauses) e (brute_search-Good s)).0;
  total = λ s m i scope e lt.
      let good = subst (Good s.n_vars s.clauses) e (brute_search-Good s) in
      good.1 i (omega (arith, good.0));
  sound = λ s m scope e. (subst (Good s.n_vars s.clauses) e (brute_search-Good s)).2;
  refutes = λ s v scope e.
      brute-refutes s.n_vars s.n_vars [] s.clauses v (omega arith) scope
        (λ i lt. absurd (omega arith)) e;
}
