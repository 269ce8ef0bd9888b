-- ===== src/Constraints/Semantics.antt =====
-- What references and solver states mean, and which of them are well formed.
use phd_thesis_src.Prelude.{
  ℕ, zero, suc, ◌+◌, ◌/◌, ◌≡◌, refl, Bool, true, false, not, List, [], ◌∷◌, ℤ, pos, negsuc, abs,
  iff, any, all, All, All-mono, length, arith, ap, ◌<◌, ◌≤◌,
}
use phd_thesis_src.Sat.{Lit, lit_not}
use phd_thesis_src.Sat.Semantics.{Valuation, lit_value, clause_holds, all_hold}
use phd_thesis_src.Constraints.{BoolVarRef, Solver, neg, true_const, to_lit}

-- The value of a reference: variable `k` of the solver is referred to by k + 1 and -(k + 1).
abbrev pub ref_value : Valuation → BoolVarRef → Bool
ref_value v (pos zero) = false
ref_value v (pos (suc k)) = v k
ref_value v (negsuc k) = not (v k)

-- The string that an array of references stands for.
abbrev pub values : Valuation → List BoolVarRef → List Bool
values v [] = []
values v (b ∷ bs) = ref_value v b ∷ values v bs

-- The reference names one of the first `n` variables.
abbrev pub IsRef : ℕ → BoolVarRef → Type 0
IsRef n b = (0 < abs b) × (abs b ≤ n)

abbrev pub Agree : ℕ → Valuation → Valuation → Type 0
Agree n v w = (i : ℕ) → i < n → v i ≡ w i

abbrev pub vars : Solver → ℕ
vars s = s.sat.n_vars

unfoldable pub holds : Valuation → Solver → Bool
holds v s = all_hold v s.sat.clauses

abbrev pub IsLit : ℕ → Lit → Type 0
IsLit n p = elim p.x [ pos k ↦ k / 2 < n | negsuc k ↦ ⊥ ]

abbrev pub Entry : Type 0
Entry = (BoolVarRef × BoolVarRef) × BoolVarRef

abbrev pub IsEntry : ℕ → Entry → Type 0
IsEntry n e = IsRef n e.0.0 × IsRef n e.0.1 × IsRef n e.1

-- The cached variable is equivalent to the equality of the pair.
abbrev pub EntryHolds : Valuation → Entry → Type 0
EntryHolds v e = ref_value v e.1 ≡ iff (ref_value v e.0.0) (ref_value v e.0.1)

pub record IsValid (s : Solver) : Type 0 where
  pub ids : s.next_bool_id ≡ suc (vars s)
  pub clauses : All (All (IsLit (vars s))) s.sat.clauses
  pub int_ids : length s.ints ≡ s.next_int_id
  pub int_refs : All (λ i. All (IsRef (vars s)) i.bools) s.ints
  pub cache_refs : All (IsEntry (vars s)) s.iff_reif_cache
  pub nonempty : 0 < vars s
  pub constant : (v : Valuation) → holds v s ≡ true → ref_value v true_const ≡ true
  pub cache_sound : (v : Valuation) → holds v s ≡ true → All (EntryHolds v) s.iff_reif_cache

pub to_lit-pos : (k : ℕ) → to_lit (pos (suc k)) ≡ record { x = pos (k + k) }
unfolding to_lit
to_lit-pos k = ground arith

pub to_lit-negsuc : (k : ℕ) → to_lit (negsuc k) ≡ record { x = pos (k + k + 1) }
unfolding to_lit
to_lit-negsuc k = ground arith

-- The literal that is posted for a reference has the reference's value.
pub lit_value-to_lit : (v : Valuation) (b : BoolVarRef) → lit_value v (to_lit b) ≡ ref_value v b
lit_value-to_lit v (pos zero) = unfold to_lit in refl
lit_value-to_lit v (pos (suc k)) =
    let half : (k + k) / 2 ≡ k = omega arith in rw (to_lit-pos, half) (ground arith)
lit_value-to_lit v (negsuc k) =
    let half : (k + k + 1) / 2 ≡ k = omega arith in rw (to_lit-negsuc, half) (ground arith)

pub IsLit-to_lit : {n : ℕ} (b : BoolVarRef) → IsRef n b → IsLit n (to_lit b)
IsLit-to_lit (pos zero) h = absurd (omega arith)
IsLit-to_lit (pos (suc k)) h = rw to_lit-pos (omega arith)
IsLit-to_lit (negsuc k) h = rw to_lit-negsuc (omega arith)

pub ref_value-neg :
    {n : ℕ} (v : Valuation) (b : BoolVarRef) → IsRef n b → ref_value v (neg b) ≡ not (ref_value v b)
ref_value-neg v (pos zero) h = absurd (omega arith)
ref_value-neg v (pos (suc k)) h = refl
ref_value-neg v (negsuc k) h = ground arith

pub IsRef-neg : {n : ℕ} (b : BoolVarRef) → IsRef n b → IsRef n (neg b)
IsRef-neg (pos zero) h = h
IsRef-neg (pos (suc k)) h = h
IsRef-neg (negsuc k) h = h

pub IsRef-mono : {n m : ℕ} (b : BoolVarRef) → n ≤ m → IsRef n b → IsRef m b
IsRef-mono b h r = omega arith

pub lit_not-to_lit : {n : ℕ} (b : BoolVarRef) → IsRef n b → lit_not (to_lit b) ≡ to_lit (neg b)
unfolding lit_not
lit_not-to_lit (pos zero) h = absurd (omega arith)
lit_not-to_lit (pos (suc k)) h = rw (to_lit-pos, to_lit-negsuc) (ground arith)
lit_not-to_lit (negsuc k) h = rw (to_lit-pos, to_lit-negsuc) (ground arith)

pub ref_value_congr :
    {n : ℕ} (v w : Valuation) (b : BoolVarRef)
    → Agree n v w
    → IsRef n b
    → ref_value v b ≡ ref_value w b
ref_value_congr v w (pos zero) a h = refl
ref_value_congr v w (pos (suc k)) a h = a k h.1
ref_value_congr v w (negsuc k) a h = ap not (a k h.1)

pub IsRef-grow : {n m : ℕ} (bs : List BoolVarRef) → n ≤ m → All (IsRef n) bs → All (IsRef m) bs
IsRef-grow bs h = All-mono _ _ (λ b. IsRef-mono b h) bs

pub IsLit-mono : {n m : ℕ} (x : ℤ) → n ≤ m → IsLit n (record { x = x }) → IsLit m (record { x = x })
IsLit-mono (pos k) h r = omega arith
IsLit-mono (negsuc k) h r = r

module _ {n : ℕ} (v w : Valuation) (a : Agree n v w) where
  pub any_congr :
      (bs : List BoolVarRef) → All (IsRef n) bs → any (ref_value v) bs ≡ any (ref_value w) bs
  any_congr [] h = refl
  any_congr (b ∷ bs) h = cc (ref_value_congr v w b a h.0, any_congr bs h.1)

  pub values_congr : (bs : List BoolVarRef) → All (IsRef n) bs → values v bs ≡ values w bs
  values_congr [] h = refl
  values_congr (b ∷ bs) h = cc (ref_value_congr v w b a h.0, values_congr bs h.1)

  pub all_congr :
      (bs : List BoolVarRef) → All (IsRef n) bs → all (ref_value v) bs ≡ all (ref_value w) bs
  all_congr [] h = refl
  all_congr (b ∷ bs) h = cc (ref_value_congr v w b a h.0, all_congr bs h.1)

lit_value_congr :
    {n : ℕ} (v w : Valuation) (x : ℤ)
    → Agree n v w
    → IsLit n (record { x = x })
    → lit_value v (record { x = x }) ≡ lit_value w (record { x = x })
lit_value_congr v w (pos k) a h = rw (a (k / 2) h)
lit_value_congr v w (negsuc k) a h = refl

module _ {n : ℕ} (v w : Valuation) (agree : Agree n v w) where
  clause_holds_congr : (c : List Lit) → All (IsLit n) c → clause_holds v c ≡ clause_holds w c
  unfolding clause_holds
  clause_holds_congr [] h = refl
  clause_holds_congr (p ∷ c) h = cc (lit_value_congr v w p.x agree h.0, clause_holds_congr c h.1)

  pub all_hold_congr :
      (cs : List (List Lit)) → All (All (IsLit n)) cs → all_hold v cs ≡ all_hold w cs
  unfolding all_hold
  all_hold_congr [] h = refl
  all_hold_congr (c ∷ cs) h = cc (clause_holds_congr c h.0, all_hold_congr cs h.1)

-- Valuations that agree on the solver's variables agree on its clauses.
pub holds_congr :
    (s : Solver) (v w : Valuation) → IsValid s → Agree (vars s) v w → holds v s ≡ holds w s
unfolding holds
holds_congr s v w valid agree = all_hold_congr v w agree s.sat.clauses valid.clauses

pub length-values : (v : Valuation) (bs : List BoolVarRef) → length (values v bs) ≡ length bs
length-values v [] = refl
length-values v (b ∷ bs) = ap suc (length-values v bs)
