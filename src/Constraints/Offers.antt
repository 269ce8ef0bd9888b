-- ===== src/Constraints/Offers.antt =====
-- Operations that make variables which can be given chosen values.
use phd_thesis_src.Prelude.{ℕ, ◌<◌, ◌≡◌, ◌≤◌, sym, ◌∙◌, true, arith, length, get_elem?, some}
use phd_thesis_src.Sat.Semantics.{Valuation}
use phd_thesis_src.Constraints.{IntVar, Solver, new_bool_vars}
use phd_thesis_src.Constraints.Semantics.{
  values, Agree, vars, holds, IsValid, values_congr, holds_congr,
}
use phd_thesis_src.Constraints.Encodes.{Encodes, Always}
use phd_thesis_src.Constraints.Fresh.{
  override, override_below, new_bool_vars-Encodes, new_bool_vars-holds, values-override,
}

-- `s'` comes from `s` by calls of the encoder: `Q` holds in its models, and for each choice that is
-- `Ok` every model of `s` becomes one of `s'` that shows the choice.
pub record Offers (s s' : Solver) {C : Type 0} (Ok : C → Type 0) (Shows : Valuation → C → Type 0)
    (Q : Valuation → Type 0) : Type 0 where
  pub valid : IsValid s'
  pub grows : vars s ≤ vars s'
  pub ints_kept : (i : ℕ) (x : IntVar) → get_elem? s.ints i ≡ some x → get_elem? s'.ints i ≡ some x
  pub shows_congr : (v w : Valuation) (c : C) → Agree (vars s') v w → Shows v c → Shows w c
  pub sound : (v : Valuation) → holds v s' ≡ true → (holds v s ≡ true) × Q v
  pub complete :
      (v : Valuation) (c : C)
      → holds v s ≡ true
      → Ok c
      → (w : Valuation) × Agree (vars s) v w × Shows w c × (holds w s' ≡ true)

pub Offers_then :
    {s s' s'' : Solver} {C : Type 0} {Ok Ok' : C → Type 0} {Shows : Valuation → C → Type 0}
    {Q P Q' : Valuation → Type 0}
    → Offers s s' Ok Shows Q
    → Encodes s' s'' P Q'
    → ((c : C) → Ok' c → Ok c)
    → ((w : Valuation) (c : C) → Ok' c → Shows w c → Q w → P w)
    → Offers s s'' Ok' Shows (λ v. Q v × Q' v)
Offers_then a b first second = record {
  valid = b.valid;
  grows = omega (arith, a.grows, b.grows);
  ints_kept = λ i x h. b.ints_kept i x (a.ints_kept i x h);
  shows_congr = λ v w c agree. a.shows_congr v w c (λ i lt. agree i (omega (arith, b.grows)));
  sound = λ v h. let (h', q') = b.sound v h in let (h'', q) = a.sound v h' in (h'', (q, q'));
  complete = λ v c h r.
      let (w, agree, shows, h') = a.complete v c h (first c r) in
      let (u, agree', h'') = b.complete w h' (second w c r shows (a.sound w h').1) in
      (
        u,
        λ i lt. agree i lt ∙ agree' i (omega (arith, a.grows)),
        a.shows_congr w u c agree' shows,
        h'',
      );
}

pub Offers_pair :
    {s s' s'' : Solver} {C D : Type 0} {Ok : C → Type 0} {Ok' : D → Type 0}
    {Shows : Valuation → C → Type 0} {Shows' : Valuation → D → Type 0} {Q Q' : Valuation → Type 0}
    → Offers s s' Ok Shows Q
    → Offers s' s'' Ok' Shows' Q'
    → Offers s s'' {C = C × D}
        (λ c. Ok c.0 × Ok' c.1)
        (λ v c. Shows v c.0 × Shows' v c.1)
        (λ v. Q v × Q' v)
Offers_pair a b = record {
  valid = b.valid;
  grows = omega (arith, a.grows, b.grows);
  ints_kept = λ i x h. b.ints_kept i x (a.ints_kept i x h);
  shows_congr = λ v w c agree shown. (
    a.shows_congr v w c.0 (λ i lt. agree i (omega (arith, b.grows))) shown.0,
    b.shows_congr v w c.1 agree shown.1,
  );
  sound = λ v h. let (h', q') = b.sound v h in let (h'', q) = a.sound v h' in (h'', (q, q'));
  complete = λ v c h r.
      let (w, agree, shows, h') = a.complete v c.0 h r.0 in
      let (u, agree', shows', h'') = b.complete w c.1 h' r.1 in
      (
        u,
        λ i lt. agree i lt ∙ agree' i (omega (arith, a.grows)),
        (a.shows_congr w u c.0 agree' shows, shows'),
        h'',
      );
}

-- Another way to name the choices.
pub Offers_map :
    {s s' : Solver} {C D : Type 0} {Ok : C → Type 0} {Ok' : D → Type 0}
    {Shows : Valuation → C → Type 0} {Shows' : Valuation → D → Type 0} {Q Q' : Valuation → Type 0}
    (f : D → C)
    → Offers s s' Ok Shows Q
    → ((d : D) → Ok' d → Ok (f d))
    → ((v : Valuation) (d : D) → Ok' d → Shows v (f d) → Shows' v d)
    → ((v w : Valuation) (d : D) → Agree (vars s') v w → Shows' v d → Shows' w d)
    → ((v : Valuation) → Q v → Q' v)
    → Offers s s' Ok' Shows' Q'
Offers_map f a p q r t = record {
  valid = a.valid;
  grows = a.grows;
  ints_kept = a.ints_kept;
  shows_congr = r;
  sound = λ v h. let (h', g) = a.sound v h in (h', t v g);
  complete = λ v d h k.
      let (w, agree, shows, h') = a.complete v (f d) h (p d k) in (w, agree, q w d k shows, h');
}

-- Fresh variables show every string of their number.
pub new_bool_vars-Offers :
    (n : ℕ) (s : Solver)
    → IsValid s
    → Offers s
        (new_bool_vars n s).1
        (λ xs. length xs ≡ n)
        (λ v xs. values v (new_bool_vars n s).0 ≡ xs)
        Always
new_bool_vars-Offers n s h =
    let (_, refs, step) = new_bool_vars-Encodes n s h in
    record {
      valid = step.valid;
      grows = step.grows;
      ints_kept = step.ints_kept;
      shows_congr =
          λ v w xs agree shown. sym (values_congr v w agree (new_bool_vars n s).0 refs) ∙ shown;
      sound = step.sound;
      complete = λ v xs t len.
          let given = override (vars s) xs v in
          let agrees = λ (i : ℕ) (lt : i < vars s). override_below (vars s) xs v i lt in
          (
            given,
            agrees,
            values-override n s xs v h len,
            new_bool_vars-holds n given s ∙ sym (holds_congr s v given h agrees) ∙ t,
          );
    }
