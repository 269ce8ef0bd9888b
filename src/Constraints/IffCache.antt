-- ===== src/Constraints/IffCache.antt =====
-- The cached `boolIffReif` of core/ConstraintSolver.cc.
use phd_thesis_src.Prelude.{
  ◌≡◌, ◌&&◌, refl, true, List, [], ◌∷◌, arith, All, Option, none, some, ◌==ℤ◌, ==ℤ_sound,
  Option-cases, Bool-cases, inl, inr, if◌then◌else◌, and-eq-true,
}
use phd_thesis_src.Sat.Semantics.{Valuation}
use phd_thesis_src.Constraints.{BoolVarRef, Solver, new_bool_var}
use phd_thesis_src.Constraints.Semantics.{
  IsRef, vars, holds, IsValid, IsRef-mono, Entry, IsEntry, EntryHolds,
}
use phd_thesis_src.Constraints.Encodes.{Encodes, Always}
use phd_thesis_src.Constraints.Gates.{bool_iff_reif, IffGate, fresh_iff-Encodes, IsRef-fresh_iff}

-- `std::map::find`
pub find : BoolVarRef → BoolVarRef → List Entry → Option BoolVarRef
find a b [] = none
find a b (e ∷ es) = if a ==ℤ e.0.0 && b ==ℤ e.0.1 then some e.1 else find a b es

pub bool_iff_reif_cached : BoolVarRef → BoolVarRef → Solver → BoolVarRef × Solver
bool_iff_reif_cached b₁ b₂ s = elim (find b₁ b₂ s.iff_reif_cache) [
  | some t ↦ (t, s)
  | none ↦ elim (find b₂ b₁ s.iff_reif_cache) [
    | some t ↦ (t, s)
    | none ↦
        let (t, s₁) = new_bool_var s in
        let s₂ = bool_iff_reif b₁ b₂ t s₁ in
        (t, record s₂ { iff_reif_cache = ((b₁, b₂), t) ∷ s₂.iff_reif_cache })
  ]
]

-- A hit is an entry of the cache.
pub find-All {ℓ} :
    (P : Entry → Type ℓ) (a b t : BoolVarRef) (es : List Entry)
    → find a b es ≡ some t
    → All P es
    → P ((a, b), t)
unfolding find
find-All P a b t [] e h = absurd (cc e)
find-All P a b t (((c, d), u) ∷ es) e h = elim (Bool-cases (a ==ℤ c && b ==ℤ d)) [
  | inl hit ↦
      let (p, q) = and-eq-true (a ==ℤ c) (b ==ℤ d) hit in
      let same : t ≡ u = ground arith in rw (==ℤ_sound a c p, ==ℤ_sound b d q, same) h.0
  | inr miss ↦ find-All P a b t es (ground arith) h.1
]

-- The reference that is returned stands for the equality of the two values in every model.
abbrev pub IffResult : BoolVarRef → BoolVarRef → Solver → BoolVarRef × Solver → Type 0
IffResult b₁ b₂ s r = IsRef (vars r.1) r.0 × Encodes s r.1 Always (IffGate b₁ b₂ r.0)

module _ (b₁ b₂ : BoolVarRef) (s : Solver) (h : IsValid s) where
  hit-IffResult :
      (t : BoolVarRef)
      → IsRef (vars s) t
      → ((v : Valuation) → holds v s ≡ true → IffGate b₁ b₂ t v)
      → IffResult b₁ b₂ s (t, s)
  hit-IffResult t r gate = (
    r,
    record {
      valid = h;
      grows = omega arith;
      ints_kept = λ i x e. e;
      sound = λ v e. (e, gate v e);
      complete = λ v e p. (v, λ i lt. refl, e);
    },
  )

  -- A new entry of the cache that holds in every model.
  remember-Encodes :
      (t : BoolVarRef) (s' : Solver) {P Q : Valuation → Type 0}
      → Encodes s s' P Q
      → IsEntry (vars s') ((b₁, b₂), t)
      → ((v : Valuation) → Q v → IffGate b₁ b₂ t v)
      → Encodes s (record s' { iff_reif_cache = ((b₁, b₂), t) ∷ s'.iff_reif_cache }) P Q
  unfolding holds
  remember-Encodes t s' a r gate = record {
    valid = record {
      ids = a.valid.ids;
      clauses = a.valid.clauses;
      int_ids = a.valid.int_ids;
      int_refs = a.valid.int_refs;
      cache_refs = (r, a.valid.cache_refs);
      nonempty = a.valid.nonempty;
      constant = a.valid.constant;
      cache_sound = λ v e. (gate v (a.sound v e).1, a.valid.cache_sound v e);
    };
    grows = a.grows;
    ints_kept = a.ints_kept;
    sound = a.sound;
    complete = a.complete;
  }

  miss-IffResult :
      IsRef (vars s) b₁
      → IsRef (vars s) b₂
      → let (t, s₁) = new_bool_var s in
        let s₂ = bool_iff_reif b₁ b₂ t s₁ in
        IffResult b₁ b₂ s (t, record s₂ { iff_reif_cache = ((b₁, b₂), t) ∷ s₂.iff_reif_cache })
  miss-IffResult r₁ r₂ =
      let t = (new_bool_var s).0 in
      let fresh = fresh_iff-Encodes b₁ b₂ s h r₁ r₂ in
      let r = IsRef-fresh_iff b₁ b₂ s h r₁ r₂ in
      (
        r,
        remember-Encodes t (bool_iff_reif b₁ b₂ t (new_bool_var s).1) fresh
            (IsRef-mono b₁ fresh.grows r₁, IsRef-mono b₂ fresh.grows r₂, r) (λ v q. q),
      )

  -- On a valid solver and references to its variables the reference that the cached `boolIffReif`
  -- returns, whether the pair is in the cache in either order or not, is that of a variable and
  -- stands for the equality of the two values in every model. The solver stays valid, and each of
  -- its models becomes one of the new solver when the new variable gets a value.
  pub bool_iff_reif_cached-Encodes :
      IsRef (vars s) b₁ → IsRef (vars s) b₂ → IffResult b₁ b₂ s (bool_iff_reif_cached b₁ b₂ s)
  unfolding bool_iff_reif_cached
  bool_iff_reif_cached-Encodes r₁ r₂ = elim (Option-cases (find b₁ b₂ s.iff_reif_cache)) [
    | inr (t, e) ↦
        rw (e, bool_iff_reif_cached)
          (hit-IffResult t (find-All (IsEntry (vars s)) b₁ b₂ t s.iff_reif_cache e h.cache_refs).2
            (λ v held. find-All (EntryHolds v) b₁ b₂ t s.iff_reif_cache e (h.cache_sound v held)))
    | inl e ↦ elim (Option-cases (find b₂ b₁ s.iff_reif_cache)) [
      | inr (t, e') ↦
          rw (e, bool_iff_reif_cached)
            (rw (e', bool_iff_reif_cached)
              (hit-IffResult t
                (find-All (IsEntry (vars s)) b₂ b₁ t s.iff_reif_cache e' h.cache_refs).2
                (λ v held.
                  let same =
                    find-All (EntryHolds v) b₂ b₁ t s.iff_reif_cache e' (h.cache_sound v held) in
                  ground arith)))
      | inl e' ↦ rw (e, bool_iff_reif_cached) (rw (e', bool_iff_reif_cached) (miss-IffResult r₁ r₂))
    ]
  ]
