-- ===== src/Constraints/Clauses.antt =====
-- `addClause` and the operations that only call it: what a posted clause adds.
use phd_thesis_src.Prelude.{
  ℕ, ◌≡◌, refl, Bool, true, false, ◌&&◌, ◌||◌, List, [], ◌∷◌, map, All, any, arith, ap, sym, ◌∙◌,
  if◌then◌else◌, and-eq-true,
}
use phd_thesis_src.Sat.{Lit}
use phd_thesis_src.Sat.Semantics.{Valuation, clause_holds, all_hold}
use phd_thesis_src.Constraints.{
  BoolVarRef, Solver, neg, to_lit, post, at_least_one, bool_or₂, bool_or₃, set_bool_var,
}
use phd_thesis_src.Constraints.Semantics.{
  ref_value, IsRef, Agree, vars, holds, IsLit, IsValid, lit_value-to_lit, IsLit-to_lit,
  lit_not-to_lit, any_congr,
}
use phd_thesis_src.Constraints.Encodes.{Encodes, Encodes_then, Encodes_map}

holds-post :
    (v : Valuation) (c : List Lit) (s : Solver)
    → holds v (post c s) ≡ (clause_holds v c && holds v s)
unfolding holds all_hold
holds-post v c s = refl

IsValid-post : (c : List Lit) (s : Solver) → IsValid s → All (IsLit (vars s)) c → IsValid (post c s)
IsValid-post c s h lits = record {
  ids = h.ids;
  clauses = (lits, h.clauses);
  int_ids = h.int_ids;
  int_refs = h.int_refs;
  cache_refs = h.cache_refs;
  nonempty = h.nonempty;
  constant = λ v t. h.constant v (and-eq-true _ _ (rw holds-post at t)).1;
  cache_sound = λ v t. h.cache_sound v (and-eq-true _ _ (rw holds-post at t)).1;
}

clause_holds-map :
    (v : Valuation) (bs : List BoolVarRef) → clause_holds v (map to_lit bs) ≡ any (ref_value v) bs
unfolding clause_holds
clause_holds-map v [] = refl
clause_holds-map v (b ∷ bs) =
    rw lit_value-to_lit (ap (λ t. ref_value v b || t) (clause_holds-map v bs))

IsLit-map : (n : ℕ) (bs : List BoolVarRef) → All (IsRef n) bs → All (IsLit n) (map to_lit bs)
IsLit-map n [] h = tt
IsLit-map n (b ∷ bs) h = (IsLit-to_lit b h.0, IsLit-map n bs h.1)

-- A disjunction of references.
abbrev pub Some : List BoolVarRef → Valuation → Type 0
Some bs v = any (ref_value v) bs ≡ true

-- Posting a clause adds exactly the disjunction.
pub at_least_one-Encodes :
    (bs : List BoolVarRef) (s : Solver)
    → IsValid s
    → All (IsRef (vars s)) bs
    → Encodes s (at_least_one bs s) (Some bs) (Some bs)
unfolding at_least_one
at_least_one-Encodes bs s h refs =
    let value = λ (v : Valuation).
      holds-post v (map to_lit bs) s ∙ ap (λ t. t && holds v s) (clause_holds-map v bs) in
    record {
      valid = IsValid-post (map to_lit bs) s h (IsLit-map (vars s) bs refs);
      grows = omega arith;
      ints_kept = λ i x e. e;
      sound = λ v t.
          let (p, q) = and-eq-true (any (ref_value v) bs) (holds v s) (sym (value v) ∙ t) in (q, p);
      complete = λ v t p. (v, λ i lt. refl, value v ∙ rw (p, t));
    }

bool_or₂-eq : (a b : BoolVarRef) (s : Solver) → bool_or₂ a b s ≡ at_least_one (a ∷ b ∷ []) s
unfolding bool_or₂ at_least_one
bool_or₂-eq a b s = refl

bool_or₃-eq : (a b c : BoolVarRef) (s : Solver) → bool_or₃ a b c s ≡ at_least_one (a ∷ b ∷ c ∷ []) s
unfolding bool_or₃ at_least_one
bool_or₃-eq a b c s = refl

pub set_bool_var-eq :
    (b : BoolVarRef) (x : Bool) (s : Solver)
    → IsRef (vars s) b
    → set_bool_var b x s ≡ at_least_one ((if x then b else neg b) ∷ []) s
unfolding set_bool_var at_least_one
set_bool_var-eq b true s h = refl
set_bool_var-eq b false s h = rw (lit_not-to_lit b h)

-- Several clauses, posted in order.
unfoldable pub post_all : List (List BoolVarRef) → Solver → Solver
post_all [] s = s
post_all (c ∷ cs) s = post_all cs (at_least_one c s)

abbrev pub AllSome : List (List BoolVarRef) → Valuation → Type 0
AllSome cs v = All (λ c. Some c v) cs

AllSome-congr :
    {n : ℕ} (v w : Valuation) (cs : List (List BoolVarRef))
    → Agree n v w
    → All (All (IsRef n)) cs
    → AllSome cs v
    → AllSome cs w
AllSome-congr v w [] a h p = tt
AllSome-congr v w (c ∷ cs) a h p =
    (sym (any_congr v w a c h.0) ∙ p.0, AllSome-congr v w cs a h.1 p.1)

pub post_all-Encodes :
    (cs : List (List BoolVarRef)) (s : Solver)
    → IsValid s
    → All (All (IsRef (vars s))) cs
    → Encodes s (post_all cs s) (AllSome cs) (AllSome cs)
unfolding post_all
post_all-Encodes [] s h refs = record {
  valid = h;
  grows = omega arith;
  ints_kept = λ i x e. e;
  sound = λ v t. (t, tt);
  complete = λ v t p. (v, λ i lt. refl, t);
}
post_all-Encodes (c ∷ cs) s h refs =
    let first = at_least_one-Encodes c s h refs.0 in
    let rest = post_all-Encodes cs (at_least_one c s) first.valid (unfold at_least_one in refs.1) in
    Encodes_map
      (Encodes_then (AllSome (c ∷ cs)) first rest (λ v p. p.0)
        (λ v w p agree q. AllSome-congr v w cs agree refs.1 p.1))
      (λ v p. p) (λ v q. q)
