-- ===== src/Constraints/Ints/Single.antt =====
-- `newIntVar`: an integer variable that takes one of n values.
use phd_thesis_src.Prelude.{
  ℕ, zero, suc, ◌+◌, ◌<◌, ◌≡◌, refl, sym, ap, ◌∙◌, Bool, List, [], ◌∷◌, ◌++◌, pos, sub_ℕ, arith,
  All, All-append, length, length-append, get_elem?, some, if◌then◌else◌,
}
use phd_thesis_src.Sat.Semantics.{Valuation}
use phd_thesis_src.Constraints.{BoolVarRef, IntVarRef, IntVar, Solver, new_bool_var, new_bool_vars}
use phd_thesis_src.Constraints.Semantics.{
  values, IsRef, vars, holds, IsValid, IsRef-grow, length-values,
}
use phd_thesis_src.Constraints.Fresh.{new_bool_vars-Encodes}
use phd_thesis_src.Constraints.Offers.{Offers, Offers_then, Offers_map, new_bool_vars-Offers}
use phd_thesis_src.Constraints.Cardinality.{
  exactly_one, count_true, exactly_one-Encodes, exactly_one-next_int_id,
}
use phd_thesis_src.Constraints.Ints.{rounds, new_int_var}

-- How many entries of a string are true.
abbrev pub ones : List Bool → ℕ
ones [] = 0
ones (x ∷ xs) = (if x then 1 else 0) + ones xs

pub count_true-ones : (v : Valuation) (bs : List BoolVarRef) → count_true v bs ≡ ones (values v bs)
count_true-ones v [] = refl
count_true-ones v (b ∷ bs) = omega (arith, count_true-ones v bs)

-- One of `n` values.
abbrev pub OneHot : ℕ → List Bool → Type 0
OneHot n xs = (length xs ≡ n) × (ones xs ≡ 1)

get_elem?-append_left {ℓ} :
    {A : Type ℓ} (xs ys : List A) (k : ℕ) (x : A)
    → get_elem? xs k ≡ some x
    → get_elem? (xs ++ ys) k ≡ some x
get_elem?-append_left [] ys k x h = absurd (cc h)
get_elem?-append_left (z ∷ xs) ys zero x h = h
get_elem?-append_left (z ∷ xs) ys (suc k) x h = get_elem?-append_left xs ys k x h

get_elem?-append_last {ℓ} :
    {A : Type ℓ} (xs : List A) (n : ℕ) (x : A)
    → length xs ≡ n
    → get_elem? (xs ++ (x ∷ [])) n ≡ some x
get_elem?-append_last [] zero x h = refl
get_elem?-append_last [] (suc n) x h = absurd (omega arith)
get_elem?-append_last (z ∷ xs) zero x h = absurd (omega arith)
get_elem?-append_last (z ∷ xs) (suc n) x h = get_elem?-append_last xs n x (omega arith)

-- A new entry of `m_ints`.
with_int :
    {s : Solver} (s' : Solver) {C : Type 0} {Ok : C → Type 0} {Shows : Valuation → C → Type 0}
    {Q : Valuation → Type 0} (v : IntVar) (k : ℕ)
    → Offers s s' Ok Shows Q
    → All (IsRef (vars s')) v.bools
    → k ≡ suc s'.next_int_id
    → Offers s (record s' { ints = s'.ints ++ (v ∷ []); next_int_id = k }) Ok Shows Q
unfolding holds
with_int s' v k a refs e = record {
  valid = record {
    ids = a.valid.ids;
    clauses = a.valid.clauses;
    int_ids = length-append s'.ints (v ∷ []) ∙ omega (arith, a.valid.int_ids, e);
    int_refs = All-append _ s'.ints (v ∷ []) a.valid.int_refs (refs, tt);
    cache_refs = a.valid.cache_refs;
    nonempty = a.valid.nonempty;
    constant = a.valid.constant;
    cache_sound = a.valid.cache_sound;
  };
  grows = a.grows;
  ints_kept = λ i x h. get_elem?-append_left s'.ints (v ∷ []) i x (a.ints_kept i x h);
  shows_congr = a.shows_congr;
  sound = a.sound;
  complete = a.complete;
}

-- The calls in between leave `m_nextIntID` alone.
new_bool_vars-next_int_id : (n : ℕ) (s : Solver) → (new_bool_vars n s).1.next_int_id ≡ s.next_int_id
unfolding new_bool_vars
new_bool_vars-next_int_id zero s = refl
new_bool_vars-next_int_id (suc n) s = new_bool_vars-next_int_id n (new_bool_var s).1

-- `p` is an integer variable from 0 on with the Boolean variables `bs`.
pub record IsVar (ints : List IntVar) (bs : List BoolVarRef) (p : IntVarRef) : Type 0 where
  pub var : IntVar
  pub found : get_elem? ints p ≡ some var
  pub lb : var.lb ≡ pos 0
  pub bools : var.bools ≡ bs

pub record IntResult (n : ℕ) (s : Solver) (r : IntVarRef × Solver) : Type 0 where
  pub bs : List BoolVarRef
  pub is_var : IsVar r.1.ints bs r.0
  pub size : length bs ≡ n
  pub refs : All (IsRef (vars r.1)) bs
  pub offers : Offers s r.1 (OneHot n) (λ w xs. values w bs ≡ xs) (λ w. OneHot n (values w bs))

rounds_lem : (n : ℕ) → 0 < n → rounds (pos 0) (sub_ℕ n 1) ≡ n
rounds_lem n h = ground arith

-- On a valid solver and for n > 0 `newIntVar( 0, n - 1 )` makes an integer variable with n
-- references. Exactly one of them is true in each model, and each model of the solver becomes one
-- with any one of them true.
pub new_int_var-IntResult :
    (n : ℕ) (s : Solver) → IsValid s → 0 < n → IntResult n s (new_int_var (pos 0) (sub_ℕ n 1) s)
unfolding new_int_var
new_int_var-IntResult n s h lt =
    let m = rounds (pos 0) (sub_ℕ n 1) in
    let same : m ≡ n = rounds_lem n lt in
    let u = new_bool_vars m s in
    let (len, refs, made) = new_bool_vars-Encodes m s h in
    let one = exactly_one-Encodes u.0 u.1 made.valid refs in
    let s₂ = exactly_one u.0 u.1 in
    let v : IntVar = record { lb = pos 0; ub = sub_ℕ n 1; bools = u.0 } in
    let chosen =
      Offers_then {Ok' = OneHot n} (new_bool_vars-Offers m s h) one (λ xs ok. ok.0 ∙ sym same)
        (λ w xs ok shown q. count_true-ones w u.0 ∙ ap ones shown ∙ ok.1) in
    let next : s₂.next_int_id ≡ s.next_int_id =
      exactly_one-next_int_id u.0 u.1 ∙ new_bool_vars-next_int_id m s in
    let refs' = IsRef-grow u.0 one.grows refs in
    let whole = with_int s₂ v (suc s.next_int_id) chosen refs' (omega (arith, next)) in
    record {
      bs = u.0;
      is_var = record {
        var = v;
        found = get_elem?-append_last s₂.ints s.next_int_id v (one.valid.int_ids ∙ next);
        lb = refl;
        bools = refl;
      };
      size = len ∙ same;
      refs = refs';
      offers =
          Offers_map (λ xs. xs) whole (λ d ok. ok) (λ w d okay shown. shown) whole.shows_congr
            (λ w q. (length-values w u.0 ∙ len ∙ same, sym (count_true-ones w u.0) ∙ q.1));
    }
