-- ===== src/Reducer/Cache.antt =====
-- The cache of core/LexImplicationsReducer.cc: its numbers, and truth values for them.
use phd_thesis_src.Prelude.{
  ℕ, suc, ◌<◌, ◌==◌, ◌≡◌, refl, sym, ap, ap₂, ◌∙◌, Bool, iff, List, [], ◌∷◌, pos, arith, All,
  All-mono, if◌then◌else◌,
}
use phd_thesis_src.Sat.Semantics.{Valuation}
use phd_thesis_src.Constraints.Semantics.{
  ref_value, IsRef, IsRef-mono, Agree, Entry, IsEntry, EntryHolds, ref_value_congr,
}
use phd_thesis_src.Reducer.Construct.{LexImplicationsReducer}

-- The newest entry comes first, and the numbers fall from below `next` to above `m`, the number of
-- edges. The pairs are edges.
abbrev pub Numbered : ℕ → ℕ → List Entry → Type 0
Numbered m next [] = m < next
Numbered m next (e ∷ es) =
    (id : ℕ) × (e.1 ≡ pos (suc id))
    × (suc id < next)
    × IsRef m e.0.0
    × IsRef m e.0.1
    × Numbered m (suc id) es

pub Numbered-lt : (m next : ℕ) (es : List Entry) → Numbered m next es → m < next
Numbered-lt m next [] h = h
Numbered-lt m next (e ∷ es) (id, _, lt, _, _, rest) = omega (arith, Numbered-lt m (suc id) es rest)

pub Numbered-IsEntry : (m k : ℕ) (es : List Entry) → Numbered m (suc k) es → All (IsEntry k) es
Numbered-IsEntry m k [] h = tt
Numbered-IsEntry m k (((a, b), t) ∷ es) (id, number, lt, ra, rb, rest) =
    let below = Numbered-lt m (suc id) es rest in
    let at_t : IsRef k t = rw number (omega arith) in
    (
      (IsRef-mono a (omega arith) ra, IsRef-mono b (omega arith) rb, at_t),
      All-mono _ _
          (λ e h. (
            IsRef-mono e.0.0 (omega arith) h.0,
            IsRef-mono e.0.1 (omega arith) h.1,
            IsRef-mono e.1 (omega arith) h.2,
          ))
          es (Numbered-IsEntry m id es rest),
    )

EntryHolds-congr :
    (k : ℕ) (v w : Valuation) (e : Entry)
    → Agree k v w
    → IsEntry k e
    → EntryHolds v e
    → EntryHolds w e
EntryHolds-congr k v w ((a, b), t) agree (ra, rb, rt) h =
    sym (ref_value_congr v w t agree rt)
    ∙ h
    ∙ ap₂ iff (ref_value_congr v w a agree ra) (ref_value_congr v w b agree rb)

Entries-congr :
    (k : ℕ) (v w : Valuation) (es : List Entry)
    → Agree k v w
    → All (IsEntry k) es
    → All (EntryHolds v) es
    → All (EntryHolds w) es
Entries-congr k v w [] agree r h = tt
Entries-congr k v w (e ∷ es) agree r h =
    (EntryHolds-congr k v w e agree r.0 h.0, Entries-congr k v w es agree r.1 h.1)

abbrev set_value : ℕ → Bool → Valuation → Valuation
set_value id b v q = if q == id then b else v q

set_value-Agree : (id : ℕ) (b : Bool) (v : Valuation) → Agree id v (set_value id b v)
set_value-Agree id b v q lt = let other : (q == id) ≡ Bool.false = ground arith in rw other refl

set_value_self : (id : ℕ) (b : Bool) (v : Valuation) → set_value id b v id ≡ b
set_value_self id b v = ground arith

-- Values of the edges extend to values of all numbers at which each entry of the cache holds.
pub Entries_model :
    (m next : ℕ) (es : List Entry) (v : Valuation)
    → Numbered m next es
    → (w : Valuation) × Agree m v w × All (EntryHolds w) es
Entries_model m next [] v h = (v, λ i lt. refl, tt)
Entries_model m next (((a, b), t) ∷ es) v (id, number, lt, ra, rb, rest) =
    let (w, agree, held) = Entries_model m (suc id) es v rest in
    let below = Numbered-lt m (suc id) es rest in
    let b' = iff (ref_value w a) (ref_value w b) in
    let w' = set_value id b' w in
    let step = set_value-Agree id b' w in
    (
      w',
      λ i l. agree i l ∙ step i (omega arith),
      (
        ap (ref_value w') number
            ∙ set_value_self id b' w
            ∙ ap₂ iff (ref_value_congr w w' a step (IsRef-mono a (omega arith) ra))
                (ref_value_congr w w' b step (IsRef-mono b (omega arith) rb)),
        Entries-congr id w w' es step (Numbered-IsEntry m id es rest) held,
      ),
    )

-- All entries of the cache hold.
abbrev pub Entries : Valuation → LexImplicationsReducer → Type 0
Entries v r = All (EntryHolds v) r.iff_reif_cache

-- The reducer after a step: only the cache and the next number change, and the cache grows.
pub record Grows (m : ℕ) (r r' : LexImplicationsReducer) : Type 0 where
  pub matrix : r'.adj_matrix ≡ r.adj_matrix
  pub index : r'.index ≡ r.index
  pub subgraph : r'.subgraph_str ≡ r.subgraph_str
  pub ids : Numbered m r'.next_bool_id r'.iff_reif_cache
  pub older : (v : Valuation) → Entries v r' → Entries v r

pub Grows-refl :
    (m : ℕ) (r : LexImplicationsReducer) → Numbered m r.next_bool_id r.iff_reif_cache → Grows m r r
Grows-refl m r h = record {
  matrix = refl;
  index = refl;
  subgraph = refl;
  ids = h;
  older = λ v e. e;
}

pub Grows-trans :
    {m : ℕ} {r r₁ r₂ : LexImplicationsReducer} → Grows m r r₁ → Grows m r₁ r₂ → Grows m r r₂
Grows-trans a b = record {
  matrix = b.matrix ∙ a.matrix;
  index = b.index ∙ a.index;
  subgraph = b.subgraph ∙ a.subgraph;
  ids = b.ids;
  older = λ v e. a.older v (b.older v e);
}
