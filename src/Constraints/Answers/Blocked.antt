-- ===== src/Constraints/Answers/Blocked.antt =====
-- The clause with which `countSolutions` excludes a model, and truth values as numbers.
use phd_thesis_src.Prelude.{
  ℕ, suc, ◌≡◌, refl, ap, ap₂, Bool, true, false, List, [], ◌∷◌, arith, All, any, length, ok,
  if◌then◌else◌,
}
use phd_thesis_src.Sat.{Lbool}
use phd_thesis_src.Sat.Semantics.{Valuation, is_true, truth}
use phd_thesis_src.Order.Sums.{one}
use phd_thesis_src.Matrix.Permute.{Maps}
use phd_thesis_src.Constraints.{BoolVarRef, Solver, neg}
use phd_thesis_src.Constraints.Semantics.{ref_value, values, IsRef, IsRef-neg, vars, ref_value-neg}
use phd_thesis_src.Constraints.Answers.{blocking_clause, with_model}
use phd_thesis_src.Constraints.Answers.Decode.{HasModel, lbool_of, get_bool_assignment-ref_value}

-- The clause that a model `t` is excluded with.
abbrev pub blocked : Valuation → List BoolVarRef → List BoolVarRef
blocked t [] = []
blocked t (b ∷ bs) = (if ref_value t b then neg b else b) ∷ blocked t bs

is_true-lbool_of : (x : Bool) → is_true (lbool_of x) ≡ x
is_true-lbool_of true = refl
is_true-lbool_of false = refl

pub blocking_clause-blocked :
    (m : List Lbool) (s : Solver) (bs : List BoolVarRef)
    → HasModel (with_model m s)
    → All (IsRef (vars s)) bs
    → blocking_clause bs (with_model m s) ≡ ok (blocked (truth m) bs)
unfolding blocking_clause
blocking_clause-blocked m s [] h r = refl
blocking_clause-blocked m s (b ∷ bs) h r =
    rw
      (
        get_bool_assignment-ref_value (with_model m s) b h r.0,
        blocking_clause-blocked m s bs h r.1,
        is_true-lbool_of (ref_value (truth m) b),
      )
      refl

pub blocked_refs :
    (n : ℕ) (t : Valuation) (bs : List BoolVarRef) → All (IsRef n) bs → All (IsRef n) (blocked t bs)
blocked_refs n t [] r = tt
blocked_refs n t (b ∷ bs) r = (go (ref_value t b), blocked_refs n t bs r.1)
  where
    go : (x : Bool) → IsRef n (if x then neg b else b)
    go true = IsRef-neg b r.0
    go false = r.0

-- The clause is false exactly where the references have the values of the model.
pub blocked-same :
    (n : ℕ) (v t : Valuation) (bs : List BoolVarRef)
    → All (IsRef n) bs
    → values v bs ≡ values t bs
    → any (ref_value v) (blocked t bs) ≡ false
blocked-same n v t [] r e = refl
blocked-same n v t (b ∷ bs) r e =
    let head : ref_value v b ≡ ref_value t b = cc e in
    let tail : values v bs ≡ values t bs = cc e in
    ground (arith, head, ref_value-neg v b r.0, blocked-same n v t bs r.1 tail)

pub same-blocked :
    (n : ℕ) (v t : Valuation) (bs : List BoolVarRef)
    → All (IsRef n) bs
    → any (ref_value v) (blocked t bs) ≡ false
    → values v bs ≡ values t bs
same-blocked n v t [] r h = refl
same-blocked n v t (b ∷ bs) r h =
    let head : ref_value v b ≡ ref_value t b = ground (arith, h, ref_value-neg v b r.0) in
    let rest : any (ref_value v) (blocked t bs) ≡ false =
      ground (arith, h, ref_value-neg v b r.0) in
    ap₂ (λ x xs. x ∷ xs) head (same-blocked n v t bs r.1 rest)

-- Truth values as numbers, to count what is left.
abbrev pub bits : List Bool → List ℕ
bits [] = []
bits (x ∷ xs) = one x ∷ bits xs

pub bits-injective : (xs ys : List Bool) → bits xs ≡ bits ys → xs ≡ ys
bits-injective [] [] e = refl
bits-injective [] (y ∷ ys) e = absurd (cc e)
bits-injective (x ∷ xs) [] e = absurd (cc e)
bits-injective (x ∷ xs) (y ∷ ys) e =
    let tail : bits xs ≡ bits ys = cc e in
    let number : one x ≡ one y = cc e in
    let head : x ≡ y = ground arith in ap₂ (λ a b. a ∷ b) head (bits-injective xs ys tail)

pub bits-Maps : (xs : List Bool) → Maps 2 (bits xs)
bits-Maps [] = tt
bits-Maps (x ∷ xs) = (ground arith, bits-Maps xs)

pub length-bits : (xs : List Bool) → length (bits xs) ≡ length xs
length-bits [] = refl
length-bits (x ∷ xs) = ap suc (length-bits xs)
