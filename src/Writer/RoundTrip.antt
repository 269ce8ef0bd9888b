-- ===== src/Writer/RoundTrip.antt =====
-- Reading back what core/LexImplicationsFileWriter.cc writes.
use phd_thesis_src.Prelude.{
  ℕ, zero, suc, ◌+◌, ◌-◌, ◌<◌, ◌≤◌, ◌==◌, ◌≡◌, refl, sym, ap, ◌∙◌, true, false, List, [], ◌∷◌, ◌++◌,
  arith, All, length, none, ok, ◌>>=◌,
}
use phd_thesis_src.Text.{Bytes, codes, show_nat, is_digit, read_digits}
use phd_thesis_src.Text.Numbers.{
  show_nat-append, show_nat-All, show_nat-cons, read_digits-show_nat, read_digits_stop,
}
use phd_thesis_src.Canonizing.{
  CanonicalIndexing, upper_triangle_rows, upper_triangle_cols, LexImplication,
}
use phd_thesis_src.Canonizing.Main.{CompType, direct, incremental}
use phd_thesis_src.Writer.{
  perm_text, lex_imp_to_pl_term, terms_text, comp_type_text, indexing_text, set_text, write,
}
use phd_thesis_src.Writer.Reader.{
  expect, read_number, read_numbers, read_perm, read_term, read_terms, read_set, skip_to_list,
  read_file, need,
}

expect-ne : (c d : ℕ) (w rest : Bytes) → (c == d) ≡ false → expect (c ∷ w) (d ∷ rest) ≡ none
unfolding expect
expect-ne c d w rest other = rw (other, expect) refl

-- A number does not start with what is no digit.
expect-show_nat :
    (c n : ℕ) (w rest : Bytes) → is_digit c ≡ false → expect (c ∷ w) (show_nat n rest) ≡ none
expect-show_nat c n w rest other =
    let (d, ds, e, digit) = show_nat-cons n rest in
    ap (expect (c ∷ w)) e ∙ expect-ne c (48 + d) w ds (ground arith)

read_number-show_nat :
    (n c : ℕ) (rest : Bytes)
    → is_digit c ≡ false
    → read_number (show_nat n (c ∷ rest)) ≡ ok (n, c ∷ rest)
unfolding read_number
read_number-show_nat n c rest other =
    let (d, ds, e, digit) = show_nat-cons n (c ∷ rest) in
    let first : is_digit (48 + d) ≡ true = ground arith in
    ap read_number e
    ∙ rw (first, read_number)
        (ap (λ w. ok (read_digits 0 w)) (sym e)
          ∙ ap ok (read_digits-show_nat n (c ∷ rest) ∙ read_digits_stop n c rest other))

read_numbers-perm_text :
    (fuel p : ℕ) (ps rest : Bytes)
    → length ps < fuel
    → read_numbers fuel (perm_text (p ∷ ps) (b']' ∷ rest)) ≡ ok (p ∷ ps, b']' ∷ rest)
unfolding read_numbers perm_text
read_numbers-perm_text zero p ps rest lt = absurd (omega arith)
read_numbers-perm_text (suc fuel) p [] rest lt =
    let e : p + 1 - 1 ≡ p = omega arith in
    rw (read_number-show_nat (p + 1) b']' rest refl) (ap (λ k. ok (k ∷ [], b']' ∷ rest)) e)
read_numbers-perm_text (suc fuel) p (q ∷ ps) rest lt =
    let e : p + 1 - 1 ≡ p = omega arith in
    let w = perm_text (q ∷ ps) (b']' ∷ rest) in
    rw (read_number-show_nat (p + 1) b',' w refl) (
      rw (read_numbers-perm_text fuel q ps rest (omega arith))
        (ap (λ k. ok (k ∷ q ∷ ps, b']' ∷ rest)) e))

perm_text-cons :
    (c p : ℕ) (ps rest : Bytes)
    → is_digit c ≡ false
    → expect (c ∷ []) (perm_text (p ∷ ps) rest) ≡ none
unfolding perm_text
perm_text-cons c p [] rest other = expect-show_nat c (p + 1) [] rest other
perm_text-cons c p (q ∷ ps) rest other =
    expect-show_nat c (p + 1) [] (b',' ∷ perm_text (q ∷ ps) rest) other

read_perm-perm_text :
    (fuel : ℕ) (ps rest : Bytes)
    → length ps ≤ fuel
    → read_perm fuel (perm_text ps (b']' ∷ rest)) ≡ ok (ps, rest)
unfolding read_perm
read_perm-perm_text fuel [] rest le = unfold perm_text in refl
read_perm-perm_text fuel (p ∷ ps) rest le =
    rw (perm_text-cons b']' p ps (b']' ∷ rest) refl, read_perm)
      (rw (read_numbers-perm_text fuel p ps rest (omega arith)) refl)

-- The reader reads a term back, with any text after it.
read_term-lex_imp_to_pl_term :
    (fuel : ℕ) (x : LexImplication) (rest : Bytes)
    → length x.perm ≤ fuel
    → read_term fuel (lex_imp_to_pl_term x rest) ≡ ok (x, rest)
unfolding read_term lex_imp_to_pl_term
read_term-lex_imp_to_pl_term fuel x rest le =
    rw (read_perm-perm_text fuel x.perm (b',' ∷ show_nat x.length (b')' ∷ rest)) le)
      (rw (read_number-show_nat x.length b')' rest refl) refl)

-- Every permutation has at most `width` entries.
abbrev pub AtMost : ℕ → List LexImplication → Type 0
AtMost width xs = All (λ x. length x.perm ≤ width) xs

read_terms-terms_text :
    (width fuel : ℕ) (x : LexImplication) (xs : List LexImplication) (rest : Bytes)
    → length xs < fuel
    → AtMost width (x ∷ xs)
    → read_terms width fuel (terms_text (x ∷ xs) (b']' ∷ rest)) ≡ ok (x ∷ xs, b']' ∷ rest)
unfolding read_terms terms_text
read_terms-terms_text width zero x xs rest lt h = absurd (omega arith)
read_terms-terms_text width (suc fuel) x [] rest lt h =
    rw (read_term-lex_imp_to_pl_term width x (b']' ∷ rest) h.0) refl
read_terms-terms_text width (suc fuel) x (y ∷ xs) rest lt h =
    let w = terms_text (y ∷ xs) (b']' ∷ rest) in
    rw (read_term-lex_imp_to_pl_term width x (codes ", \n" ++ w) h.0)
      (rw (read_terms-terms_text width fuel y xs rest (omega arith) h.1) refl)

terms_text-cons :
    (x : LexImplication) (xs : List LexImplication) (rest : Bytes)
    → expect (codes "]") (terms_text (x ∷ xs) rest) ≡ none
unfolding terms_text lex_imp_to_pl_term expect
terms_text-cons x [] rest = refl
terms_text-cons x (y ∷ xs) rest = refl

-- With the fuels at least the number of implications and the length of their permutations, the
-- reader reads the list of terms of a file back, with any text after the bracket that closes it.
read_set-terms_text :
    (width fuel : ℕ) (xs : List LexImplication) (rest : Bytes)
    → length xs ≤ fuel
    → AtMost width xs
    → read_set width fuel (terms_text xs (codes "]" ++ rest)) ≡ ok (xs, rest)
unfolding read_set
read_set-terms_text width fuel [] rest le h = unfold terms_text in refl
read_set-terms_text width fuel (x ∷ xs) rest le h =
    rw (terms_text-cons x xs (b']' ∷ rest), read_set)
      (rw (read_terms-terms_text width fuel x xs rest (omega arith) h) refl)

-- No bracket that opens a list.
abbrev pub Plain : Bytes → Type 0
Plain w = All (λ c. (c == b'[') ≡ false) w

skip_to_list-append : (w rest : Bytes) → Plain w → skip_to_list (w ++ rest) ≡ skip_to_list rest
unfolding skip_to_list
skip_to_list-append [] rest h = refl
skip_to_list-append (c ∷ w) rest h = rw (h.0, skip_to_list) (skip_to_list-append w rest h.1)

skip_to_list-show_nat : (n : ℕ) (rest : Bytes) → skip_to_list (show_nat n rest) ≡ skip_to_list rest
skip_to_list-show_nat n rest =
    ap skip_to_list (show_nat-append n rest)
    ∙ skip_to_list-append (show_nat n []) rest
        (show_nat-All n [] (λ c. (c == b'[') ≡ false) (λ d lt. ground arith) tt)

skip_to_list-set_text :
    (xs : List LexImplication) (comp_time tail : Bytes)
    → Plain comp_time
    → skip_to_list (set_text xs comp_time tail) ≡ b'\n' ∷ terms_text xs tail
unfolding set_text skip_to_list
skip_to_list-set_text xs comp_time tail plain =
    skip_to_list-show_nat (length xs)
      (codes "), time(" ++ (comp_time ++ (codes "), [\n" ++ terms_text xs tail)))
    ∙ skip_to_list-append comp_time (codes "), [\n" ++ terms_text xs tail) plain

header_plain :
    (comp_type : CompType) (index : CanonicalIndexing) (rest : Bytes)
    → skip_to_list (codes ", " ++ (comp_type_text comp_type ++ (indexing_text index ++ rest)))
      ≡ skip_to_list rest
unfolding skip_to_list
header_plain direct upper_triangle_rows rest = refl
header_plain direct upper_triangle_cols rest = refl
header_plain incremental upper_triangle_rows rest = refl
header_plain incremental upper_triangle_cols rest = refl

skip_to_list-write :
    (n : ℕ) (xs : List LexImplication) (comp_time : Bytes) (comp_type : CompType)
    (index : CanonicalIndexing)
    → Plain comp_time
    → skip_to_list (write n xs comp_time comp_type index) ≡ b'\n' ∷ terms_text xs (codes "]).")
unfolding write skip_to_list
skip_to_list-write n xs comp_time comp_type index plain =
    let set = set_text xs comp_time (codes "]).") in
    skip_to_list-show_nat n
      (codes ", " ++ (comp_type_text comp_type ++ (indexing_text index ++ set)))
    ∙ header_plain comp_type index set
    ∙ skip_to_list-set_text xs comp_time (codes "]).") plain

-- Where the text of the time has no bracket, and with fuels at least the number of implications and
-- the length of their permutations, the reader gives back the implications of a file that `write`
-- made, in order, whatever the other arguments.
pub read_file-write :
    (width fuel n : ℕ) (xs : List LexImplication) (comp_time : Bytes) (comp_type : CompType)
    (index : CanonicalIndexing)
    → length xs ≤ fuel
    → AtMost width xs
    → Plain comp_time
    → read_file width fuel (write n xs comp_time comp_type index) ≡ ok xs
unfolding read_file
read_file-write width fuel n xs comp_time comp_type index le h plain =
    ap
      (λ s. need (expect (codes "\n") s) >>= (λ s₁.
        read_set width fuel s₁ >>= (λ q. need (expect (codes ").") q.1) >>= (λ rest. ok q.0))))
      (skip_to_list-write n xs comp_time comp_type index plain)
    ∙ rw (read_set-terms_text width fuel xs (codes ").") le h) refl
