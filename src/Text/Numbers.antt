-- ===== src/Text/Numbers.antt =====
-- Reading back the numbers that are printed.
use phd_thesis_src.Prelude.{
  append_assoc, ℕ, zero, suc, ◌+◌, ◌-◌, ◌*◌, ◌/◌, ◌%◌, ◌<◌, ◌≤◌, ◌≡◌, refl, sym, ap, ◌∙◌, true,
  false, [], ◌∷◌, ◌++◌, pos, ◌==◌, ltb, arith, All, Bool-cases, inl, inr,
}
use phd_thesis_src.Text.{
  Bytes, show_digits, show_nat, is_digit, read_digits, is_space, skip_spaces, signed, atoi,
}

read_digits-digit :
    (n d : ℕ) (rest : Bytes)
    → d < 10
    → read_digits n ((48 + d) ∷ rest) ≡ read_digits (n * 10 + d) rest
unfolding read_digits
read_digits-digit n d rest lt =
    let digit : is_digit (48 + d) ≡ true = ground arith in
    let value : n * 10 + ((48 + d) - 48) ≡ n * 10 + d = omega arith in
    rw (digit, read_digits) (ap (λ k. read_digits k rest) value)

read_digits-show_digits :
    (fuel n : ℕ) (rest : Bytes)
    → n < fuel
    → read_digits 0 (show_digits fuel n rest) ≡ read_digits n rest
unfolding show_digits
read_digits-show_digits zero n rest lt = absurd (omega arith)
read_digits-show_digits (suc fuel) n rest lt = elim (Bool-cases (ltb n 10)) [
  | inl small ↦
      let below : n < 10 = ground arith in
      let value : 0 * 10 + n ≡ n = omega arith in
      rw (small, show_digits)
        (read_digits-digit 0 n rest below ∙ ap (λ k. read_digits k rest) value)
  | inr large ↦
      let above : 10 ≤ n = ground arith in
      let value : n / 10 * 10 + n % 10 ≡ n = omega arith in
      rw (large, show_digits)
        (read_digits-show_digits fuel (n / 10) ((48 + n % 10) ∷ rest) (omega arith)
          ∙ read_digits-digit (n / 10) (n % 10) rest (omega arith)
          ∙ ap (λ k. read_digits k rest) value)
]

pub read_digits-show_nat :
    (n : ℕ) (rest : Bytes) → read_digits 0 (show_nat n rest) ≡ read_digits n rest
unfolding show_nat
read_digits-show_nat n rest = read_digits-show_digits (suc n) n rest (omega arith)

-- The digits stand in front of the text that follows.
show_digits-append :
    (fuel n : ℕ) (rest : Bytes) → show_digits fuel n rest ≡ show_digits fuel n [] ++ rest
unfolding show_digits
show_digits-append zero n rest = refl
show_digits-append (suc fuel) n rest = elim (Bool-cases (ltb n 10)) [
  | inl small ↦ rw (small, show_digits) refl
  | inr large ↦
      let d = 48 + n % 10 in
      rw (large, show_digits)
        (show_digits-append fuel (n / 10) (d ∷ rest)
          ∙ sym (append_assoc (show_digits fuel (n / 10) []) (d ∷ []) rest)
          ∙ ap (λ w. w ++ rest) (sym (show_digits-append fuel (n / 10) (d ∷ []))))
]

-- All bytes are digits, and there is one.
show_digits-All {ℓ} :
    (P : ℕ → Type ℓ) (fuel n : ℕ) (rest : Bytes)
    → ((d : ℕ) → d < 10 → P (48 + d))
    → All P rest
    → All P (show_digits fuel n rest)
unfolding show_digits
show_digits-All P zero n rest digit h = h
show_digits-All P (suc fuel) n rest digit h = elim (Bool-cases (ltb n 10)) [
  | inl small ↦ rw (small, show_digits) (digit n (ground arith), h)
  | inr large ↦
      rw (large, show_digits)
        (show_digits-All P fuel (n / 10) ((48 + n % 10) ∷ rest) digit
          (digit (n % 10) (omega arith), h))
]

show_digits-cons :
    (fuel n : ℕ) (rest : Bytes)
    → n < fuel
    → (d : ℕ) × (ds : Bytes) × (show_digits fuel n rest ≡ (48 + d) ∷ ds) × (d < 10)
unfolding show_digits
show_digits-cons zero n rest lt = absurd (omega arith)
show_digits-cons (suc fuel) n rest lt = elim (Bool-cases (ltb n 10)) [
  | inl small ↦ (n, rest, rw (small, show_digits) refl, ground arith)
  | inr large ↦
      let above : 10 ≤ n = ground arith in
      let (d, ds, e, digit) = show_digits-cons fuel (n / 10) ((48 + n % 10) ∷ rest) (omega arith) in
      (d, ds, rw (large, show_digits) e, digit)
]

module _ (n : ℕ) (rest : Bytes) where
  pub show_nat-append : show_nat n rest ≡ show_nat n [] ++ rest
  unfolding show_nat
  show_nat-append = show_digits-append (suc n) n rest

  pub show_nat-All {ℓ} :
      (P : ℕ → Type ℓ) → ((d : ℕ) → d < 10 → P (48 + d)) → All P rest → All P (show_nat n rest)
  unfolding show_nat
  show_nat-All P digit h = show_digits-All P (suc n) n rest digit h

  -- The first byte is a digit.
  pub show_nat-cons : (d : ℕ) × (ds : Bytes) × (show_nat n rest ≡ (48 + d) ∷ ds) × (d < 10)
  unfolding show_nat
  show_nat-cons = show_digits-cons (suc n) n rest (omega arith)

  -- `atoi` reads the number back, up to the end of the digits.
  pub atoi-show_nat : atoi (show_nat n rest) ≡ pos (read_digits n rest).0
  unfolding atoi signed skip_spaces
  atoi-show_nat =
      let (d, ds, e, digit) = show_nat-cons in
      let space : is_space (48 + d) ≡ false = ground arith in
      let minus : ((48 + d) == b'-') ≡ false = ground arith in
      let plus : ((48 + d) == b'+') ≡ false = ground arith in
      ap atoi e
      ∙ rw (space, skip_spaces) (rw (minus, plus) (ap (λ w. pos (read_digits 0 w).0) (sym e)))
      ∙ ap (λ q. pos q.0) (read_digits-show_nat n rest)

pub read_digits_nil : (n : ℕ) → read_digits n [] ≡ (n, [])
unfolding read_digits
read_digits_nil n = refl

pub read_digits_stop :
    (n c : ℕ) (rest : Bytes) → is_digit c ≡ false → read_digits n (c ∷ rest) ≡ (n, c ∷ rest)
unfolding read_digits
read_digits_stop n c rest other = rw (other, read_digits) refl
