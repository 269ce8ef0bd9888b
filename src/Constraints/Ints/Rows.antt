-- ===== src/Constraints/Ints/Rows.antt =====
-- The first loop of `newPermutation`: a row of Boolean variables for each integer variable.
use phd_thesis_src.Prelude.{
  ℕ, zero, suc, ◌<◌, ◌≡◌, refl, sym, ap, ap₂, ◌∙◌, Bool, List, [], ◌∷◌, pos, sub_ℕ, arith, All,
  length, get_elem?, some,
}
use phd_thesis_src.Sat.Semantics.{Valuation}
use phd_thesis_src.Constraints.{BoolVarRef, IntVarRef, IntVar, Solver}
use phd_thesis_src.Constraints.Semantics.{
  values, IsRef, Agree, vars, IsValid, IsRef-grow, values_congr,
}
use phd_thesis_src.Constraints.Offers.{Offers, Offers_pair, Offers_map}
use phd_thesis_src.Constraints.Ints.{new_int_var, int_vars}
use phd_thesis_src.Constraints.Ints.Single.{OneHot, IsVar, new_int_var-IntResult}

-- The strings of the rows.
abbrev pub rows : Valuation → List (List BoolVarRef) → List (List Bool)
rows v [] = []
rows v (b ∷ bs) = values v b ∷ rows v bs

abbrev pub AreVars : List IntVar → List (List BoolVarRef) → List IntVarRef → Type 0
AreVars ints [] [] = Unit
AreVars ints (b ∷ bs) (p ∷ ps) = IsVar ints b p × AreVars ints bs ps
AreVars ints bs ps = ⊥

pub AreVars-kept :
    (ints ints' : List IntVar) (bs : List (List BoolVarRef)) (ps : List IntVarRef)
    → ((i : ℕ) (x : IntVar) → get_elem? ints i ≡ some x → get_elem? ints' i ≡ some x)
    → AreVars ints bs ps
    → AreVars ints' bs ps
AreVars-kept ints ints' [] [] kept h = tt
AreVars-kept ints ints' (b ∷ bs) (p ∷ ps) kept h =
    let v = h.0 in
    (
      record { var = v.var; found = kept p v.var v.found; lb = v.lb; bools = v.bools },
      AreVars-kept ints ints' bs ps kept h.1,
    )
AreVars-kept ints ints' [] (p ∷ ps) kept h = elim h [ ]
AreVars-kept ints ints' (b ∷ bs) [] kept h = elim h [ ]

pub rows_congr :
    {n : ℕ} (v w : Valuation) (bs : List (List BoolVarRef))
    → Agree n v w
    → All (All (IsRef n)) bs
    → rows v bs ≡ rows w bs
rows_congr v w [] agree h = refl
rows_congr v w (b ∷ bs) agree h =
    ap₂ (λ x y. x ∷ y) (values_congr v w agree b h.0) (rows_congr v w bs agree h.1)

-- `k` rows, each of which shows one of `n` values.
abbrev pub AreHot : ℕ → ℕ → List (List Bool) → Type 0
AreHot n k xs = (length xs ≡ k) × All (OneHot n) xs

pub record IntsResult (n k : ℕ) (s : Solver) (r : List IntVarRef × Solver) : Type 0 where
  pub bs : List (List BoolVarRef)
  pub are_vars : AreVars r.1.ints bs r.0
  pub size : length bs ≡ k
  pub widths : All (λ b. length b ≡ n) bs
  pub refs : All (All (IsRef (vars r.1))) bs
  pub offers : Offers s r.1 (AreHot n k) (λ w xs. rows w bs ≡ xs) (λ w. AreHot n k (rows w bs))

head_or : List (List Bool) → List Bool
head_or [] = []
head_or (x ∷ xs) = x

rest_of : List (List Bool) → List (List Bool)
rest_of [] = []
rest_of (x ∷ xs) = xs

head_rest : (k : ℕ) (xs : List (List Bool)) → length xs ≡ suc k → head_or xs ∷ rest_of xs ≡ xs
unfolding head_or rest_of
head_rest k [] h = absurd (omega arith)
head_rest k (x ∷ xs) h = refl

AreHot-split :
    (n k : ℕ) (xs : List (List Bool))
    → AreHot n (suc k) xs
    → OneHot n (head_or xs) × AreHot n k (rest_of xs)
unfolding head_or rest_of
AreHot-split n k [] h = absurd (omega arith)
AreHot-split n k (x ∷ xs) h = (h.1.0, (omega arith, h.1.1))

-- The first loop of `newPermutation`.
pub int_vars-IntsResult :
    (k n : ℕ) (s : Solver) → IsValid s → 0 < n → IntsResult n k s (int_vars k n s)
unfolding int_vars
int_vars-IntsResult zero n s h lt = record {
  bs = [];
  are_vars = tt;
  size = refl;
  widths = tt;
  refs = tt;
  offers = record {
    valid = h;
    grows = omega arith;
    ints_kept = λ i x e. e;
    shows_congr = λ v w c agree shown. shown;
    sound = λ v t. (t, (refl, tt));
    complete = λ v c t okay. (v, λ i l. refl, no_rows c okay.0, t);
  };
}
  where
    no_rows : (c : List (List Bool)) → length c ≡ 0 → [] ≡ c
    no_rows [] e = refl
    no_rows (x ∷ c) e = absurd (omega arith)
int_vars-IntsResult (suc k) n s h lt =
    let a = new_int_var-IntResult n s h lt in
    let s₁ = (new_int_var (pos 0) (sub_ℕ n 1) s).1 in
    let b = int_vars-IntsResult k n s₁ a.offers.valid lt in
    let refs' = IsRef-grow a.bs b.offers.grows a.refs in
    let v = a.is_var in
    record {
      bs = a.bs ∷ b.bs;
      are_vars = (
        record {
          var = v.var;
          found = b.offers.ints_kept _ v.var v.found;
          lb = v.lb;
          bools = v.bools;
        },
        b.are_vars,
      );
      size = ap suc b.size;
      widths = (a.size, b.widths);
      refs = (refs', b.refs);
      offers =
          Offers_map (λ xs. (head_or xs, rest_of xs)) (Offers_pair a.offers b.offers)
            (λ xs okay. AreHot-split n k xs okay)
            (λ w xs okay shown. ap₂ (λ x y. x ∷ y) shown.0 shown.1 ∙ head_rest k xs okay.0)
            (λ w u xs agree shown. sym (rows_congr w u (a.bs ∷ b.bs) agree (refs', b.refs)) ∙ shown)
            (λ w q. (ap suc q.1.0, (q.0, q.1.1)));
    }
