-- ===== src/Canonizing/Candidates.antt =====
-- The permutations that the search loop of a round can still find: for its end.
use phd_thesis_src.Prelude.{
  ℕ, zero, suc, ◌*◌, ◌^◌, ◌<◌, ◌≤◌, ◌==◌, ◌≡◌, refl, sym, ap, ap₂, ◌∙◌, Bool, true, false, ◌&&◌,
  ◌||◌, List, [], ◌∷◌, ◌++◌, map, arith, any, length, length-append, if◌then◌else◌, Bool-cases, inl,
  inr, subst,
}
use native.Mathlib.Nat.{pow-zero, pow-succ'}
use phd_thesis_src.Matrix.Permute.{Maps}

abbrev pub same : List ℕ → List ℕ → Bool
same [] [] = true
same [] (y ∷ ys) = false
same (x ∷ xs) [] = false
same (x ∷ xs) (y ∷ ys) = x == y && same xs ys

same_refl : (xs : List ℕ) → same xs xs ≡ true
same_refl [] = refl
same_refl (x ∷ xs) = ground (arith, same_refl xs)

pub same_sound : (xs ys : List ℕ) → same xs ys ≡ true → xs ≡ ys
same_sound [] [] h = refl
same_sound [] (y ∷ ys) h = absurd (cc h)
same_sound (x ∷ xs) [] h = absurd (cc h)
same_sound (x ∷ xs) (y ∷ ys) h =
    let head : x ≡ y = ground arith in
    let tail : same xs ys ≡ true = ground arith in ap₂ (λ a b. a ∷ b) head (same_sound xs ys tail)

abbrev pub has : List ℕ → List (List ℕ) → Bool
has x = any (same x)

abbrev pub without : List ℕ → List (List ℕ) → List (List ℕ)
without x [] = []
without x (y ∷ ys) = if same x y then without x ys else y ∷ without x ys

pub has-without :
    (w x : List ℕ) (ls : List (List ℕ))
    → has w ls ≡ true
    → same w x ≡ false
    → has w (without x ls) ≡ true
has-without w x [] h ne = h
has-without w x (y ∷ ys) h ne = elim (Bool-cases (same x y)) [
  | inl e ↦
      let at : x ≡ y = same_sound x y e in
      let miss : same w y ≡ false = sym (ap (same w) at) ∙ ne in
      let later : has w ys ≡ true = ground arith in rw e (has-without w x ys later ne)
  | inr e ↦ rw e (elim (Bool-cases (same w y)) [
    | inl e' ↦ rw e' refl
    | inr e' ↦ let later : has w ys ≡ true = ground arith in rw e' (has-without w x ys later ne)
  ])
]

length-without : (x : List ℕ) (ls : List (List ℕ)) → length (without x ls) ≤ length ls
length-without x [] = omega arith
length-without x (y ∷ ys) = ground (arith, length-without x ys)

pub length-without_lt :
    (x : List ℕ) (ls : List (List ℕ)) → has x ls ≡ true → length (without x ls) < length ls
length-without_lt x [] h = absurd (cc h)
length-without_lt x (y ∷ ys) h = elim (Bool-cases (same x y)) [
  | inl e ↦ rw e (omega (arith, length-without x ys))
  | inr e ↦
      let later : has x ys ≡ true = ground arith in
      rw e (omega (arith, length-without_lt x ys later))
]

-- Every list of the lists with each of 0, ..., n - 1 in front of it.
abbrev prefixed : ℕ → List (List ℕ) → List (List ℕ)
prefixed zero ls = []
prefixed (suc x) ls = map (λ l. x ∷ l) ls ++ prefixed x ls

-- Every list of `m` numbers below `n`.
abbrev pub all_lists : ℕ → ℕ → List (List ℕ)
all_lists n zero = [] ∷ []
all_lists n (suc m) = prefixed n (all_lists n m)

has-append : (w : List ℕ) (ls ms : List (List ℕ)) → has w (ls ++ ms) ≡ (has w ls || has w ms)
has-append w [] ms = refl
has-append w (l ∷ ls) ms = ground (arith, has-append w ls ms)

has-map : (x : ℕ) (w : List ℕ) (ls : List (List ℕ)) → has (x ∷ w) (map (λ l. x ∷ l) ls) ≡ has w ls
has-map x w [] = refl
has-map x w (l ∷ ls) = ground (arith, has-map x w ls)

has-prefixed :
    (x n : ℕ) (w : List ℕ) (ls : List (List ℕ))
    → x < n
    → has w ls ≡ true
    → has (x ∷ w) (prefixed n ls) ≡ true
has-prefixed x zero w ls lt h = absurd (omega arith)
has-prefixed x (suc n) w ls lt h =
    let split = has-append (x ∷ w) (map (λ l. n ∷ l) ls) (prefixed n ls) in
    elim (Bool-cases (x == n)) [
      | inl e ↦
          let at : x ≡ n = ground arith in
          let here : has (x ∷ w) (map (λ l. n ∷ l) ls) ≡ true =
            subst (λ c. has (x ∷ w) (map (λ l. c ∷ l) ls) ≡ true) at (has-map x w ls ∙ h) in
          ground (arith, split, here)
      | inr e ↦
          let below : x < n = ground arith in ground (arith, split, has-prefixed x n w ls below h)
    ]

pub has-all_lists : (n : ℕ) (xs : List ℕ) → Maps n xs → has xs (all_lists n (length xs)) ≡ true
has-all_lists n [] h = refl
has-all_lists n (x ∷ xs) h =
    has-prefixed x n xs (all_lists n (length xs)) h.0 (has-all_lists n xs h.1)

length-map_prefix : (x : ℕ) (ls : List (List ℕ)) → length (map (λ l. x ∷ l) ls) ≡ length ls
length-map_prefix x [] = refl
length-map_prefix x (l ∷ ls) = ap suc (length-map_prefix x ls)

length-prefixed : (n : ℕ) (ls : List (List ℕ)) → length (prefixed n ls) ≡ n * length ls
length-prefixed zero ls = omega arith
length-prefixed (suc n) ls =
    length-append (map (λ l. n ∷ l) ls) (prefixed n ls)
    ∙ grind (arith, length-map_prefix n ls, length-prefixed n ls)

-- There are n ^ m lists of `m` numbers below `n`.
pub length-all_lists : (n m : ℕ) → length (all_lists n m) ≡ n ^ m
length-all_lists n zero = sym (pow-zero n)
length-all_lists n (suc m) =
    length-prefixed n (all_lists n m) ∙ ap (λ k. n * k) (length-all_lists n m) ∙ sym (pow-succ' n m)
