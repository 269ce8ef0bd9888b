-- ===== src/Constraints/Graphs/Selected.antt =====
-- The gates of `isomorphic` for one cell: at most one is true, and it shows the edge at the places
-- that go to the cell.
use phd_thesis_src.Prelude.{
  ℕ, zero, suc, ◌<◌, ◌≤◌, ◌≡◌, ◌≢◌, refl, sym, ap, ◌∙◌, Bool, true, ◌&&◌, arith, if◌then◌else◌,
  Bool-cases, inl, inr,
}
use phd_thesis_src.Constraints.Ints.Single.{ones}
use phd_thesis_src.Constraints.Graphs.Tally.{
  tally, tally_found, tally_unique, IsPerm, off_row, off_rows, some_true, off_rows-found,
  off_rows-true, ones-append,
}

-- The places (k, l) that `p` sends to (i, j) and that have an edge.
abbrev pub selected : (ℕ → ℕ → Bool) → (ℕ → ℕ → Bool) → ℕ × ℕ → ℕ → ℕ → Bool
selected p g c k l = p k c.0 && p l c.1 && g k l

module _ (a b : ℕ → Bool) (g : ℕ → ℕ → Bool) where
  ones-off_row :
      (k l m : ℕ)
      → ones (off_row (λ k l. a k && b l && g k l) k l m) ≤ (if a k then tally b l m else 0)
  ones-off_row k l zero = ground arith
  ones-off_row k l (suc m) = ground (arith, ones-off_row k (suc l) m)

  ones-off_rows :
      (n k m : ℕ)
      → tally b 0 n ≡ 1
      → ones (off_rows (λ k l. a k && b l && g k l) n k m) ≤ tally a k m
  ones-off_rows n k zero one = omega arith
  ones-off_rows n k (suc m) one =
      let f = λ (k l : ℕ). a k && b l && g k l in
      ground (
        arith,
        ones-append (off_row f k 0 n) (off_rows f n (suc k) m),
        ones-off_row k 0 n,
        ones-off_rows n (suc k) m one,
      )

and₃-true : (x y z : Bool) → (x && y && z) ≡ true → (x ≡ true) × (y ≡ true) × (z ≡ true)
and₃-true x y z h = (ground arith, ground arith, ground arith)

module _ (n : ℕ) (p : ℕ → ℕ → Bool) (g : ℕ → ℕ → Bool) (perm : IsPerm n p) where
  pub ones-selected : (i j : ℕ) → i < n → j < n → ones (off_rows (selected p g (i, j)) n 0 n) ≤ 1
  ones-selected i j pi pj = omega (
    arith,
    ones-off_rows (λ k. p k i) (λ l. p l j) g n 0 n (perm.columns j pj),
    perm.columns i pi,
  )

  -- Two numbers go to different numbers, and two numbers come from different numbers.
  IsPerm-row : (k i j : ℕ) → k < n → i < n → j < n → p k i ≡ true → p k j ≡ true → i ≡ j
  IsPerm-row k i j lk li lj h h' = tally_unique (p k) n i j (perm.rows k lk) li lj h h'

  pub IsPerm-column : (i k l : ℕ) → i < n → k < n → l < n → p k i ≡ true → p l i ≡ true → k ≡ l
  IsPerm-column i k l li lk ll h h' = tally_unique (λ c. p c i) n k l (perm.columns i li) lk ll h h'

  pub IsPerm-from : (i : ℕ) → i < n → (k : ℕ) × (k < n) × (p k i ≡ true)
  IsPerm-from i lt =
      let (k, _, q, h) = tally_found (λ c. p c i) 0 n (omega (arith, perm.columns i lt)) in
      (k, omega arith, h)

  pub some_true-selected :
      (i j k l : ℕ)
      → i < n
      → j < n
      → k < n
      → l < n
      → i ≢ j
      → p k i ≡ true
      → p l j ≡ true
      → some_true (off_rows (selected p g (i, j)) n 0 n) ≡ g k l
  some_true-selected i j k l li lj lk ll ne hk hl = elim (Bool-cases (g k l)) [
    | inl e ↦
        let apart =
          λ (same : k ≡ l). ne (IsPerm-row k i j lk li lj hk (ap (λ c. p c j) same ∙ hl)) in
        off_rows-true (selected p g (i, j)) n 0 n k l (omega arith) (omega arith) ll apart
          (rw (hk, hl, e) refl)
        ∙ sym e
    | inr e ↦ elim (Bool-cases (some_true (off_rows (selected p g (i, j)) n 0 n))) [
      | inr none ↦ none ∙ sym e
      | inl found ↦
          let (k', l', lk', ll', _, h) = off_rows-found (selected p g (i, j)) n 0 n found in
          let (hk', hl', edge) = and₃-true (p k' i) (p l' j) (g k' l') h in
          let ek = IsPerm-column i k' k li (omega arith) lk hk' hk in
          let el = IsPerm-column j l' l lj ll' ll hl' hl in
          found ∙ sym (sym (ap (λ c. g c l) ek) ∙ sym (ap (λ c. g k' c) el) ∙ edge)
    ]
  ]
