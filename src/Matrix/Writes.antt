-- ===== src/Matrix/Writes.antt =====
-- `set` of core/Matrix.h, and the constructor.
use phd_thesis_src.Prelude.{
  ℕ, zero, suc, ◌+◌, ◌*◌, ◌<◌, ◌≡◌, refl, ◌∙◌, List, [], ◌∷◌, length, length-set, length-replicate,
  replicate, get_elem?, set as list_set, some, Returns, arith, ◌==◌, if◌then◌else◌, Bool-cases, inl,
  inr,
}
use phd_thesis_src.Matrix.{Matrix, entry, set, new_matrix}
use phd_thesis_src.Matrix.Cells.{IsFull, index-lt}

-- Different cells have different positions in the vector.
index-injective : (c i j i' j' : ℕ) → j < c → j' < c → i * c + j ≡ i' * c + j' → (i ≡ i') × (j ≡ j')
index-injective c zero j zero j' h g e = omega arith
index-injective c zero j (suc i') j' h g e = absurd (omega arith)
index-injective c (suc i) j zero j' h g e = absurd (omega arith)
index-injective c (suc i) j (suc i') j' h g e =
    omega (arith, index-injective c i j i' j' h g (omega arith))

get_elem?-set :
    {A : Type 0} (xs : List A) (k l : ℕ) (x : A)
    → k < length xs
    → get_elem? (list_set xs k x) l ≡ (if k == l then some x else get_elem? xs l)
get_elem?-set [] k l x h = absurd (omega arith)
get_elem?-set (y ∷ xs) zero zero x h = refl
get_elem?-set (y ∷ xs) zero (suc l) x h = ground arith
get_elem?-set (y ∷ xs) (suc k) zero x h = ground arith
get_elem?-set (y ∷ xs) (suc k) (suc l) x h = ground (arith, get_elem?-set xs k l x)

module _ {A : Type 0} where
  -- The matrix `m'` is `m` with `x` at (i, j).
  pub record Written (m : Matrix A) (i j : ℕ) (x : A) (m' : Matrix A) : Type 0 where
    pub rows : m'.n_rows ≡ m.n_rows
    pub cols : m'.n_cols ≡ m.n_cols
    pub full : IsFull m'
    pub here : entry m' i j ≡ some x
    pub elsewhere : (a b : ℕ) → b < m.n_cols → (i ≡ a → j ≡ b → ⊥) → entry m' a b ≡ entry m a b

  -- A write inside a matrix succeeds and changes its cell, and no other.
  pub set-Written :
      (m : Matrix A) (i j : ℕ) (x : A)
      → IsFull m
      → i < m.n_rows
      → j < m.n_cols
      → Returns (set m i j x) (Written m i j x)
  unfolding set entry
  set-Written m i j x full p q =
      let k = i * m.n_cols + j in
      let lt : k < length m.elements = omega (arith, full, index-lt m.n_rows m.n_cols i j p q) in
      (
        record m { elements = list_set m.elements k x },
        ground arith,
        record {
          rows = refl;
          cols = refl;
          full = length-set m.elements k x ∙ full;
          here = ground (arith, get_elem?-set m.elements k k x);
          elsewhere = λ a b r other.
              let l = a * m.n_cols + b in
              elim (Bool-cases (k == l)) [
                | inl e ↦
                    let (ei, ej) = index-injective m.n_cols i j a b q r (ground arith) in
                    absurd (other ei ej)
                | inr e ↦ get_elem?-set m.elements k l x lt ∙ rw e
              ];
        },
      )

  get_elem?-replicate : (k i : ℕ) (d : A) → i < k → get_elem? (replicate k d) i ≡ some d
  get_elem?-replicate zero i d h = absurd (omega arith)
  get_elem?-replicate (suc k) zero d h = refl
  get_elem?-replicate (suc k) (suc i) d h = get_elem?-replicate k i d (omega arith)

  pub new_matrix-IsFull : (d : A) (n m : ℕ) → IsFull (new_matrix d n m)
  unfolding new_matrix
  new_matrix-IsFull d n m = length-replicate (n * m) d

  pub new_matrix-entry :
      (d : A) (n m i j : ℕ) → i < n → j < m → entry (new_matrix d n m) i j ≡ some d
  unfolding new_matrix entry
  new_matrix-entry d n m i j p q = get_elem?-replicate (n * m) (i * m + j) d (index-lt n m i j p q)

  pub new_matrix-size :
      (d : A) (n m : ℕ) → (n ≡ (new_matrix d n m).n_rows) × (m ≡ (new_matrix d n m).n_cols)
  unfolding new_matrix
  new_matrix-size d n m = (refl, refl)
