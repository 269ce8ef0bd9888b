-- ===== src/Constraints/Lex/Marks.antt =====
-- The gates of `boolArraysLexLt`.
use phd_thesis_src.Prelude.{
  ℕ, suc, ◌≡◌, ◌-◌, refl, ap, ap₂, ◌∙◌, Bool, false, not, ◌&&◌, ◌||◌, iff, List, [], ◌∷◌, ◌++◌,
  arith, All, All-append, any, all, length, Returns,
}
use phd_thesis_src.Sat.Semantics.{Valuation}
use phd_thesis_src.Order.{lex_lt}
use phd_thesis_src.Constraints.{BoolVarRef, Solver, neg}
use phd_thesis_src.Constraints.Semantics.{
  ref_value, values, IsRef, Agree, vars, IsValid, IsRef-grow, IsRef-neg, ref_value-neg,
  values_congr, all_congr,
}
use phd_thesis_src.Constraints.Encodes.{Encodes, Encodes_then, Encodes_map, unchanged}
use phd_thesis_src.Constraints.Arrays.{bool_array_and_reif, AndArray, bool_array_and_reif-Encodes}
use phd_thesis_src.Constraints.Gates.{IffGate}
use phd_thesis_src.Constraints.Lex.{strict_gates}
use phd_thesis_src.Constraints.Lex.Equalities.{Equalities, Equalities-congr}

-- At each position: do the strings agree before it, with `false` and `true` there?
abbrev pub differences : Bool → List Bool → List Bool → List Bool
differences p [] ys = []
differences p (x ∷ xs) [] = []
differences p (x ∷ xs) (y ∷ ys) = (p && (not x && y)) ∷ differences (p && iff x y) xs ys

abbrev pub any_true : List Bool → Bool
any_true [] = false
any_true (x ∷ xs) = x || any_true xs

pub any_true-differences :
    (p : Bool) (xs ys : List Bool)
    → length xs ≡ length ys
    → any_true (differences p xs ys) ≡ (p && lex_lt xs ys)
any_true-differences p [] [] e = ground arith
any_true-differences p [] (y ∷ ys) e = absurd (omega arith)
any_true-differences p (x ∷ xs) [] e = absurd (omega arith)
any_true-differences p (x ∷ xs) (y ∷ ys) e =
    ground (arith, any_true-differences (p && iff x y) xs ys)

pub length-differences :
    (p : Bool) (xs ys : List Bool)
    → length xs ≡ length ys
    → length (differences p xs ys) ≡ length xs
length-differences p [] ys e = refl
length-differences p (x ∷ xs) [] e = absurd (omega arith)
length-differences p (x ∷ xs) (y ∷ ys) e =
    ap suc (length-differences (p && iff x y) xs ys (omega arith))

pub any-values :
    (v : Valuation) (bs : List BoolVarRef) → any (ref_value v) bs ≡ any_true (values v bs)
any-values v [] = refl
any-values v (b ∷ bs) = ap (λ t. ref_value v b || t) (any-values v bs)

-- The gate of one position.
gate_at :
    (done : List BoolVarRef) (x y t : BoolVarRef) (s : Solver)
    → IsValid s
    → All (IsRef (vars s)) (t ∷ x ∷ y ∷ done)
    → Returns (bool_array_and_reif (done ++ (neg x ∷ y ∷ [])) t s) λ s'.
      Encodes s s' (AndArray (done ++ (neg x ∷ y ∷ [])) t) (AndArray (done ++ (neg x ∷ y ∷ [])) t)
gate_at [] x y t s h r =
    bool_array_and_reif-Encodes (neg x) (y ∷ []) t s h (r.0, (IsRef-neg x r.1.0, (r.1.1.0, tt)))
gate_at (b ∷ done) x y t s h r = bool_array_and_reif-Encodes b (done ++ (neg x ∷ y ∷ [])) t s h (
  r.0,
  (r.1.1.1.0, All-append _ done (neg x ∷ y ∷ []) r.1.1.1.1 (IsRef-neg x r.1.0, (r.1.1.0, tt))),
)

all-gate :
    {n : ℕ} (v : Valuation) (done : List BoolVarRef) (x y : BoolVarRef)
    → IsRef n x
    → all (ref_value v) (done ++ (neg x ∷ y ∷ []))
      ≡ (all (ref_value v) done && (not (ref_value v x) && ref_value v y))
all-gate v [] x y r = ground (arith, ref_value-neg v x r)
all-gate v (b ∷ done) x y r = ground (arith, all-gate v done x y r)

all-concat :
    (v : Valuation) (done : List BoolVarRef) (r : BoolVarRef)
    → all (ref_value v) (done ++ (r ∷ [])) ≡ (all (ref_value v) done && ref_value v r)
all-concat v [] r = ground arith
all-concat v (b ∷ done) r = ground (arith, all-concat v done r)

-- The variables `ts` say where the strings differ, beyond the positions of `done`.
abbrev pub Marks :
    List BoolVarRef → List BoolVarRef → List BoolVarRef → List BoolVarRef → Valuation → Type 0
Marks done ts xs ys v =
    values v ts ≡ differences (all (ref_value v) done) (values v xs) (values v ys)

abbrev pub Marked :
    List BoolVarRef
    → List BoolVarRef
    → List BoolVarRef
    → List BoolVarRef
    → List BoolVarRef
    → Valuation
    → Type 0
Marked done rs ts xs ys v = Equalities rs xs ys v × Marks done ts xs ys v

abbrev pub Refs :
    ℕ
    → List BoolVarRef
    → List BoolVarRef
    → List BoolVarRef
    → List BoolVarRef
    → List BoolVarRef
    → Type 0
Refs n done rs ts xs ys =
    All (IsRef n) done × All (IsRef n) rs × All (IsRef n) ts × All (IsRef n) xs × All (IsRef n) ys

pub Marked-congr :
    {n : ℕ} (v w : Valuation) (done rs ts xs ys : List BoolVarRef)
    → Agree n v w
    → Refs n done rs ts xs ys
    → Marked done rs ts xs ys v
    → Marked done rs ts xs ys w
Marked-congr v w done rs ts xs ys a (rd, rr, rt, rx, ry) (e, m) = (
  Equalities-congr v w rs xs ys a rr rx ry e,
  rw
      (
        ← values_congr v w a ts rt,
        ← values_congr v w a xs rx,
        ← values_congr v w a ys ry,
        ← all_congr v w a done rd,
      )
      m,
)

-- The marks behind one position, where `q` stands for the equality there.
Marks-tail :
    (v : Valuation) (done : List BoolVarRef) (q t x y : BoolVarRef) (ts xs ys : List BoolVarRef)
    → IffGate x y q v
    → Marks done (t ∷ ts) (x ∷ xs) (y ∷ ys) v
    → Marks (done ++ (q ∷ [])) ts xs ys v
Marks-tail v done q t x y ts xs ys gate m = ground (arith, all-concat v done q)

Marks-cons :
    {n : ℕ} (v : Valuation) (done : List BoolVarRef) (q t x y : BoolVarRef)
    (ts xs ys : List BoolVarRef)
    → IsRef n x
    → IffGate x y q v
    → AndArray (done ++ (neg x ∷ y ∷ [])) t v
    → Marks (done ++ (q ∷ [])) ts xs ys v
    → Marks done (t ∷ ts) (x ∷ xs) (y ∷ ys) v
Marks-cons v done q t x y ts xs ys r gate head m =
    ap₂ (λ a b. a ∷ b) (head ∙ all-gate v done x y r)
      (m
        ∙ ap (λ p. differences p (values v xs) (values v ys)) (ground (arith, all-concat v done q)))

pub strict_gates-Encodes :
    (done rs ts xs ys : List BoolVarRef) (s : Solver)
    → IsValid s
    → length ts ≡ length xs
    → length xs ≡ length ys
    → length rs ≡ length xs - 1
    → Refs (vars s) done rs ts xs ys
    → Returns (strict_gates done rs ts xs ys s) λ s'.
      Encodes s s' (Marked done rs ts xs ys) (λ v. Equalities rs xs ys v → Marks done ts xs ys v)
unfolding strict_gates
strict_gates-Encodes done rs [] [] ys s h e e' f r =
    (s, refl, Encodes_map (unchanged s h) (λ v p. tt) (λ v q eqs. refl))
strict_gates-Encodes done rs [] (x ∷ xs) ys s h e e' f r = absurd (omega arith)
strict_gates-Encodes done rs (t ∷ ts) [] ys s h e e' f r = absurd (omega arith)
strict_gates-Encodes done rs (t ∷ ts) (x ∷ xs) [] s h e e' f r = absurd (omega arith)
strict_gates-Encodes done [] (t ∷ t' ∷ ts) (x ∷ []) (y ∷ ys) s h e e' f r = absurd (omega arith)
strict_gates-Encodes done [] (t ∷ []) (x ∷ []) (y ∷ y' ∷ ys) s h e e' f r = absurd (omega arith)
strict_gates-Encodes done [] (t ∷ ts) (x ∷ x' ∷ xs) (y ∷ ys) s h e e' f r = absurd (omega arith)
strict_gates-Encodes done (q ∷ rs) (t ∷ ts) (x ∷ []) (y ∷ ys) s h e e' f r = absurd (omega arith)
strict_gates-Encodes done [] (t ∷ []) (x ∷ []) (y ∷ []) s h e e' f (rd, rr, rt, rx, ry) =
    let (s₁, run, gate) = gate_at done x y t s h (rt.0, (rx.0, (ry.0, rd))) in
    (
      s₁,
      rw run,
      Encodes_map gate (λ v p. ground (arith, p.1, all-gate v done x y rx.0))
          (λ v q eqs. ground (arith, q, all-gate v done x y rx.0)),
    )
strict_gates-Encodes done (q ∷ rs) (t ∷ ts) (x ∷ x' ∷ xs) (y ∷ ys) s h e e' f (rd, rr, rt, rx, ry) =
    let (s₁, run, gate) = gate_at done x y t s h (rt.0, (rx.0, (ry.0, rd))) in
    let wider = λ (bs : List BoolVarRef) (rb : All (IsRef (vars s)) bs).
      IsRef-grow {m = vars s₁} bs gate.grows rb in
    let (s₂, run', rest) =
      strict_gates-Encodes (done ++ (q ∷ [])) rs ts (x' ∷ xs) ys s₁ gate.valid (omega arith)
        (omega arith) (omega arith)
        (
          wider (done ++ (q ∷ [])) (All-append _ done (q ∷ []) rd (rr.0, tt)),
          wider rs rr.1,
          wider ts rt.1,
          wider (x' ∷ xs) rx.1,
          wider ys ry.1,
        ) in
    (
      s₂,
      rw run run',
      Encodes_map
          (Encodes_then (Marked done (q ∷ rs) (t ∷ ts) (x ∷ x' ∷ xs) (y ∷ ys)) gate rest
            (λ v p. ground (arith, p.1, all-gate v done x y rx.0))
            (λ v w p agree g.
              let p' =
                Marked-congr v w done (q ∷ rs) (t ∷ ts) (x ∷ x' ∷ xs) (y ∷ ys) agree
                  (rd, rr, rt, rx, ry) p in
              (p'.0.1, Marks-tail w done q t x y ts (x' ∷ xs) ys p'.0.0 p'.1)))
          (λ v p. p)
          (λ v g eqs. Marks-cons v done q t x y ts (x' ∷ xs) ys rx.0 eqs.0 g.0 (g.1 eqs.1)),
    )
