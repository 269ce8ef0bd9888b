-- ===== src/Writer/Reader.antt =====
-- A reader of the terms that core/LexImplicationsFileWriter.cc writes, as Prolog reads them. It is a
-- description of the format and not code.
use phd_thesis_src.Prelude.{
  ℕ, zero, suc, ◌-◌, List, [], ◌∷◌, true, false, ◌==◌, Option, none, some, Result, ok, err,
  runtime_error, ◌>>=◌,
}
use phd_thesis_src.Text.{Bytes, codes, is_digit, read_digits}
use phd_thesis_src.Canonizing.{LexImplication}

-- What follows a given text.
unfoldable pub expect : Bytes → Bytes → Option Bytes
expect [] s = some s
expect (c ∷ cs) [] = none
expect (c ∷ cs) (d ∷ ds) = elim (c == d) [ true ↦ expect cs ds | false ↦ none ]

abbrev pub need : Option Bytes → Result Bytes
need none = err runtime_error
need (some s) = ok s

unfoldable pub read_number : Bytes → Result (ℕ × Bytes)
read_number [] = err runtime_error
read_number (c ∷ cs) = elim (is_digit c) [
  | true ↦ ok (read_digits 0 (c ∷ cs))
  | false ↦ err runtime_error
]

-- Numbers from 1 on with commas between them, on fuel.
unfoldable pub read_numbers : ℕ → Bytes → Result (List ℕ × Bytes)
unfolding read_number expect
read_numbers zero s = err runtime_error
read_numbers (suc fuel) s = read_number s >>= (λ q. elim (expect (codes ",") q.1) [
  | none ↦ ok ((q.0 - 1) ∷ [], q.1)
  | some s' ↦ read_numbers fuel s' >>= (λ r. ok ((q.0 - 1) ∷ r.0, r.1))
])

unfoldable pub read_perm : ℕ → Bytes → Result (List ℕ × Bytes)
unfolding read_numbers expect
read_perm fuel s = elim (expect (codes "]") s) [
  | some s' ↦ ok ([], s')
  | none ↦ read_numbers fuel s >>= (λ q. need (expect (codes "]") q.1) >>= (λ s'. ok (q.0, s')))
]

unfoldable pub read_term : ℕ → Bytes → Result (LexImplication × Bytes)
unfolding read_perm read_number expect
read_term fuel s = need (expect (codes "leximp([") s) >>= (λ s₁. read_perm fuel s₁ >>= (λ p.
    need (expect (codes ",") p.1) >>= (λ s₂. read_number s₂ >>= (λ k.
      need (expect (codes ")") k.1) >>= (λ s₃. ok (record { perm = p.0; length = k.0 }, s₃))))))

-- Terms with a comma and a new line between them, at least one.
unfoldable pub read_terms : ℕ → ℕ → Bytes → Result (List LexImplication × Bytes)
unfolding read_term expect
read_terms width zero s = err runtime_error
read_terms width (suc fuel) s = read_term width s >>= (λ q. elim (expect (codes ", \n") q.1) [
  | none ↦ ok (q.0 ∷ [], q.1)
  | some s' ↦ read_terms width fuel s' >>= (λ r. ok (q.0 ∷ r.0, r.1))
])

unfoldable pub read_set : ℕ → ℕ → Bytes → Result (List LexImplication × Bytes)
unfolding read_terms expect
read_set width fuel s = elim (expect (codes "]") s) [
  | some s' ↦ ok ([], s')
  | none ↦ read_terms width fuel s >>= (λ q. need (expect (codes "]") q.1) >>= (λ s'. ok (q.0, s')))
]

-- What follows the first bracket.
unfoldable pub skip_to_list : Bytes → Bytes
skip_to_list [] = []
skip_to_list (c ∷ cs) = elim (c == b'[') [ true ↦ cs | false ↦ skip_to_list cs ]

-- The implications in a file.
unfoldable pub read_file : ℕ → ℕ → Bytes → Result (List LexImplication)
unfolding read_set skip_to_list expect
read_file width fuel s = need (expect (codes "\n") (skip_to_list s)) >>= (λ s₁.
    read_set width fuel s₁ >>= (λ q. need (expect (codes ").") q.1) >>= (λ rest. ok q.0)))
