-- ===== src/Constraints/Fresh.antt =====
-- `newBoolVar`: a fresh variable can be given any value.
use phd_thesis_src.Prelude.{
  ℕ, zero, suc, ◌≡◌, refl, Bool, List, [], ◌∷◌, All, All-mono, length, arith, ap, ap₂, ◌<◌, sym,
  ◌∙◌, pos, if◌then◌else◌, ◌==◌,
}
use phd_thesis_src.Sat.Semantics.{Valuation}
use phd_thesis_src.Constraints.{BoolVarRef, Solver, new_bool_var, new_bool_vars}
use phd_thesis_src.Constraints.Semantics.{
  ref_value, values, IsRef, Agree, vars, holds, IsValid, IsRef-mono, holds_congr, IsLit-mono,
}
use phd_thesis_src.Constraints.Encodes.{Encodes, Encodes_then, Encodes_map, Always, unchanged}

-- A fresh variable and its reference.
module _ (s : Solver) (h : IsValid s) where
  new_bool_var-ref : (new_bool_var s).0 ≡ pos (suc (vars s))
  unfolding new_bool_var
  new_bool_var-ref = ap pos h.ids

  pub new_bool_var-vars : vars (new_bool_var s).1 ≡ suc (vars s)
  unfolding new_bool_var
  new_bool_var-vars = refl

  pub IsRef-new_bool_var : IsRef (vars (new_bool_var s).1) (new_bool_var s).0
  IsRef-new_bool_var = rw (new_bool_var-ref, new_bool_var-vars) (omega arith)

  pub IsValid-new_bool_var : IsValid (new_bool_var s).1
  unfolding new_bool_var holds
  IsValid-new_bool_var =
      let wider = λ (b : BoolVarRef) (r : IsRef (vars s) b).
        IsRef-mono {m = suc (vars s)} b (omega arith) r in
      record {
        ids = ap suc h.ids;
        clauses =
            All-mono _ _ (λ c. All-mono _ _ (λ p. IsLit-mono p.x (omega arith)) c) s.sat.clauses
              h.clauses;
        int_ids = h.int_ids;
        int_refs = All-mono _ _ (λ i. All-mono _ _ wider i.bools) s.ints h.int_refs;
        cache_refs =
            All-mono _ _ (λ e r. (wider e.0.0 r.0, wider e.0.1 r.1, wider e.1 r.2)) s.iff_reif_cache
              h.cache_refs;
        nonempty = omega arith;
        constant = h.constant;
        cache_sound = h.cache_sound;
      }

  new_bool_var-Encodes : Encodes s (new_bool_var s).1 Always Always
  unfolding new_bool_var holds
  new_bool_var-Encodes = record {
    valid = IsValid-new_bool_var;
    grows = omega arith;
    ints_kept = λ i x e. e;
    sound = λ v t. (t, tt);
    complete = λ v t p. (v, λ i lt. refl, t);
  }

  -- Where what follows asks for a value of the fresh variable, it can be given.
  pub Encodes_fresh :
      {s' : Solver} {P Q : Valuation → Type 0} (R : Valuation → Type 0) (f : Valuation → Bool)
      → Encodes (new_bool_var s).1 s' P Q
      → ((v w : Valuation) → R v → Agree (vars s) v w → ref_value w (new_bool_var s).0 ≡ f v → P w)
      → Encodes s s' R Q
  Encodes_fresh R f rest meets =
      let n = vars s in
      let given = λ (v : Valuation) (i : ℕ). if i == n then f v else v i in
      let agrees =
        λ (v : Valuation) (i : ℕ) (lt : i < n). let e : v i ≡ given v i = ground arith in e in
      record {
        valid = rest.valid;
        grows = omega (arith, rest.grows, new_bool_var-vars);
        ints_kept = λ i x e. rest.ints_kept i x (unfold new_bool_var in e);
        sound = λ v t. let (t', q) = rest.sound v t in (unfold new_bool_var holds in t', q);
        complete = λ v t r.
            let value : ref_value (given v) (new_bool_var s).0 ≡ f v =
              rw new_bool_var-ref (ground arith) in
            let held = sym (holds_congr s v (given v) h (agrees v)) ∙ t in
            let (w, agree, t') =
              rest.complete (given v) (unfold new_bool_var holds in held)
                (meets v (given v) r (agrees v) value) in
            (w, λ i lt. agrees v i lt ∙ agree i (omega (arith, new_bool_var-vars)), t');
      }

-- Values for the variables from the `n`-th on.
pub override : ℕ → List Bool → Valuation → Valuation
override n [] v = v
override n (x ∷ xs) v = override (suc n) xs (λ i. if i == n then x else v i)

pub override_below :
    (n : ℕ) (xs : List Bool) (v : Valuation) (i : ℕ) → i < n → v i ≡ override n xs v i
unfolding override
override_below n [] v i lt = refl
override_below n (x ∷ xs) v i lt =
    let e : v i ≡ (if i == n then x else v i) = ground arith in
    e ∙ override_below (suc n) xs (λ j. if j == n then x else v j) i (omega arith)

-- Several fresh variables.
abbrev FreshResult : ℕ → Solver → List BoolVarRef × Solver → Type 0
FreshResult n s r = (length r.0 ≡ n) × All (IsRef (vars r.1)) r.0 × Encodes s r.1 Always Always

pub new_bool_vars-Encodes : (n : ℕ) (s : Solver) → IsValid s → FreshResult n s (new_bool_vars n s)
unfolding new_bool_vars
new_bool_vars-Encodes zero s h = (refl, tt, unchanged s h)
new_bool_vars-Encodes (suc n) s h =
    let (len, refs, rest) = new_bool_vars-Encodes n (new_bool_var s).1 (IsValid-new_bool_var s h) in
    (
      ap suc len,
      (IsRef-mono (new_bool_var s).0 rest.grows (IsRef-new_bool_var s h), refs),
      Encodes_map
          (Encodes_then Always (new_bool_var-Encodes s h) rest (λ v p. p) (λ v w p agree q. p))
          (λ v p. p) (λ v q. tt),
    )

pub new_bool_vars-holds :
    (n : ℕ) (v : Valuation) (s : Solver) → holds v (new_bool_vars n s).1 ≡ holds v s
unfolding new_bool_vars holds
new_bool_vars-holds zero v s = refl
new_bool_vars-holds (suc n) v s = new_bool_vars-holds n v (new_bool_var s).1

pub values-override :
    (n : ℕ) (s : Solver) (xs : List Bool) (v : Valuation)
    → IsValid s
    → length xs ≡ n
    → values (override (vars s) xs v) (new_bool_vars n s).0 ≡ xs
unfolding new_bool_vars override
values-override zero s [] v h e = refl
values-override zero s (x ∷ xs) v h e = absurd (omega arith)
values-override (suc n) s [] v h e = absurd (omega arith)
values-override (suc n) s (x ∷ xs) v h e =
    let u = λ (i : ℕ). if i == vars s then x else v i in
    let here : u (vars s) ≡ x = ground arith in
    let kept = sym (override_below (suc (vars s)) xs u (vars s) (omega arith)) in
    ap₂ (λ a b. a ∷ b) (rw h.ids (kept ∙ here))
      (values-override n (new_bool_var s).1 xs u (IsValid-new_bool_var s h) (omega arith))

module _ (n : ℕ) (s : Solver) (h : IsValid s) where
  -- Where what follows asks for values of the fresh variables, they can be given.
  pub Encodes_freshes :
      {s' : Solver} {P Q : Valuation → Type 0} (R : Valuation → Type 0) (f : Valuation → List Bool)
      → Encodes (new_bool_vars n s).1 s' P Q
      → ((v : Valuation) → R v → length (f v) ≡ n)
      → ((v w : Valuation) → R v → Agree (vars s) v w → values w (new_bool_vars n s).0 ≡ f v → P w)
      → Encodes s s' R Q
  Encodes_freshes R f rest size meets =
      let (_, _, step) = new_bool_vars-Encodes n s h in
      record {
        valid = rest.valid;
        grows = omega (arith, rest.grows, step.grows);
        ints_kept = λ i x e. rest.ints_kept i x (step.ints_kept i x e);
        sound = λ v t. let (t', q) = rest.sound v t in ((step.sound v t').0, q);
        complete = λ v t r.
            let given = override (vars s) (f v) v in
            let agrees = λ (i : ℕ) (lt : i < vars s). override_below (vars s) (f v) v i lt in
            let held = new_bool_vars-holds n given s ∙ sym (holds_congr s v given h agrees) ∙ t in
            let (w, agree, t') =
              rest.complete given held
                (meets v given r agrees (values-override n s (f v) v h (size v r))) in
            (w, λ i lt. agrees i lt ∙ agree i (omega (arith, step.grows)), t');
      }
