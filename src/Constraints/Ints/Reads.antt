-- ===== src/Constraints/Ints/Reads.antt =====
-- `intEqReif`: the references of an integer variable.
use phd_thesis_src.Prelude.{
  ℕ, ◌+◌, ◌≡◌, refl, List, ℤ, pos, arith, some, get_elem?, Option-cases, inl, inr, ok,
}
use phd_thesis_src.Constraints.{BoolVarRef, IntVarRef, IntVar, Solver}
use phd_thesis_src.Constraints.Ints.{int_eq_reif}
use phd_thesis_src.Constraints.Ints.Single.{IsVar}

-- Later calls keep the integer variables.
pub int_eq_reif-kept :
    (vi : IntVarRef) (c : ℤ) (s s' : Solver) (b : BoolVarRef)
    → ((i : ℕ) (x : IntVar) → get_elem? s.ints i ≡ some x → get_elem? s'.ints i ≡ some x)
    → int_eq_reif vi c s ≡ ok b
    → int_eq_reif vi c s' ≡ ok b
unfolding int_eq_reif
int_eq_reif-kept vi c s s' b kept h = elim (Option-cases (get_elem? s.ints vi)) [
  | inl e ↦ absurd (cc (e, h))
  | inr (x, e) ↦ rw (kept vi x e) (ground (arith, e, h))
]

pub int_eq_reif-IsVar :
    (s : Solver) (bs : List BoolVarRef) (p : IntVarRef) (i : ℕ) (b : BoolVarRef)
    → IsVar s.ints bs p
    → get_elem? bs i ≡ some b
    → int_eq_reif p (pos i) s ≡ ok b
unfolding int_eq_reif
int_eq_reif-IsVar s bs p i b v h =
    let e : i + 0 ≡ i = omega arith in rw (v.found) (rw (v.lb, v.bools, e, h) refl)
