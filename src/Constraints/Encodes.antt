-- ===== src/Constraints/Encodes.antt =====
-- How a constraint is encoded: what the new clauses force, and which valuations can be extended.
use phd_thesis_src.Prelude.{ℕ, ◌≡◌, refl, true, arith, ◌≤◌, ◌∙◌, get_elem?, some}
use phd_thesis_src.Sat.Semantics.{Valuation}
use phd_thesis_src.Constraints.{IntVar, Solver}
use phd_thesis_src.Constraints.Semantics.{Agree, vars, holds, IsValid}

-- `s'` comes from `s` by calls of the encoder: its models are models of `s` at which `Q` holds,
-- and every model of `s` at which `P` holds becomes one of `s'` by giving values to the new
-- variables.
pub record Encodes (s s' : Solver) (P Q : Valuation → Type 0) : Type 0 where
  pub valid : IsValid s'
  pub grows : vars s ≤ vars s'
  pub ints_kept : (i : ℕ) (x : IntVar) → get_elem? s.ints i ≡ some x → get_elem? s'.ints i ≡ some x
  pub sound : (v : Valuation) → holds v s' ≡ true → (holds v s ≡ true) × Q v
  pub complete :
      (v : Valuation)
      → holds v s ≡ true
      → P v
      → (w : Valuation) × Agree (vars s) v w × (holds w s' ≡ true)

abbrev pub Always : Valuation → Type 0
Always v = Unit {0}

pub Encodes_then :
    {s s' s'' : Solver} {P Q P' Q' : Valuation → Type 0} (R : Valuation → Type 0)
    → Encodes s s' P Q
    → Encodes s' s'' P' Q'
    → ((v : Valuation) → R v → P v)
    → ((v w : Valuation) → R v → Agree (vars s) v w → Q w → P' w)
    → Encodes s s'' R (λ v. Q v × Q' v)
Encodes_then R a b first second = record {
  valid = b.valid;
  grows = omega (arith, a.grows, b.grows);
  ints_kept = λ i x h. b.ints_kept i x (a.ints_kept i x h);
  sound = λ v h. let (h', q') = b.sound v h in let (h'', q) = a.sound v h' in (h'', (q, q'));
  complete = λ v h r.
      let (w, agree, h') = a.complete v h (first v r) in
      let (u, agree', h'') = b.complete w h' (second v w r agree (a.sound w h').1) in
      (u, λ i lt. agree i lt ∙ agree' i (omega (arith, a.grows)), h'');
}

pub Encodes_map :
    {s s' : Solver} {P Q P' Q' : Valuation → Type 0}
    → Encodes s s' P Q
    → ((v : Valuation) → P' v → P v)
    → ((v : Valuation) → Q v → Q' v)
    → Encodes s s' P' Q'
Encodes_map a p q = record {
  valid = a.valid;
  grows = a.grows;
  ints_kept = a.ints_kept;
  sound = λ v h. let (h', r) = a.sound v h in (h', q v r);
  complete = λ v h r. a.complete v h (p v r);
}

pub unchanged : (s : Solver) → IsValid s → Encodes s s Always Always
unchanged s h = record {
  valid = h;
  grows = omega arith;
  ints_kept = λ i x e. e;
  sound = λ v t. (t, tt);
  complete = λ v t p. (v, λ i lt. refl, t);
}
