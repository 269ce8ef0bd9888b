-- ===== src/Text.antt =====
-- Texts as lists of bytes: the numbers that `<<` and `sprintf` print, and what `atoi` and
-- `std::getline` read.
pub mod Numbers
pub mod Lines
use Prim.Native.Char.{code}
use Prim.Native.String.{String}
use phd_thesis_src.Prelude.{
  ℕ, zero, suc, ◌+◌, ◌-◌, ◌*◌, ◌/◌, ◌%◌, Bool, true, false, ◌&&◌, ◌||◌, List, [], ◌∷◌, ◌++◌, ℤ, pos,
  negsuc, neg_ℤ, ◌==◌, leb, ltb, if◌then◌else◌,
}

abbrev pub Bytes : Type 0
Bytes = List ℕ

-- The bytes of a text in ASCII.
abbrev pub codes : String → Bytes
codes String.[] = []
codes (String.◌∷◌ c s) = code c ∷ codes s

-- The decimal digits of a number, in front of a text.
unfoldable pub show_digits : ℕ → ℕ → Bytes → Bytes
show_digits zero n rest = rest
show_digits (suc fuel) n rest = elim (ltb n 10) [
  | true ↦ (48 + n) ∷ rest
  | false ↦ show_digits fuel (n / 10) ((48 + n % 10) ∷ rest)
]

-- `%d`, and `<<` of a number.
unfoldable pub show_nat : ℕ → Bytes → Bytes
unfolding show_digits
show_nat n rest = show_digits (suc n) n rest

unfoldable pub show_int : ℤ → Bytes → Bytes
unfolding show_nat
show_int (pos n) rest = show_nat n rest
show_int (negsuc n) rest = b'-' ∷ show_nat (suc n) rest

abbrev pub is_digit : ℕ → Bool
is_digit c = leb 48 c && leb c 57

-- The number that starts with digits of value `n`, and what follows it.
unfoldable pub read_digits : ℕ → Bytes → ℕ × Bytes
read_digits n [] = (n, [])
read_digits n (c ∷ cs) = elim (is_digit c) [
  | true ↦ read_digits (n * 10 + (c - 48)) cs
  | false ↦ (n, c ∷ cs)
]

abbrev pub is_space : ℕ → Bool
is_space c = c == 32 || leb 9 c && leb c 13

unfoldable pub skip_spaces : Bytes → Bytes
skip_spaces [] = []
skip_spaces (c ∷ cs) = elim (is_space c) [ true ↦ skip_spaces cs | false ↦ c ∷ cs ]

-- `atoi` after the white space.
unfoldable pub signed : Bytes → ℤ
unfolding read_digits
signed [] = pos 0
signed (c ∷ cs) =
    if c == b'-'
    then neg_ℤ (pos (read_digits 0 cs).0)
    else if c == b'+'
    then pos (read_digits 0 cs).0
    else pos (read_digits 0 (c ∷ cs)).0

unfoldable pub atoi : Bytes → ℤ
unfolding signed skip_spaces
atoi s = signed (skip_spaces s)

-- `std::getline` until it fails: the texts before the line ends, and a last one without.
unfoldable pub split_lines : Bytes → Bytes → List Bytes
split_lines [] [] = []
split_lines (b ∷ line) [] = (b ∷ line) ∷ []
split_lines line (c ∷ cs) =
    if c == b'\n' then line ∷ split_lines [] cs else split_lines (line ++ (c ∷ [])) cs

-- line.substr(0, line.size() - 1)
abbrev pub drop_last : Bytes → Bytes
drop_last [] = []
drop_last (c ∷ []) = []
drop_last (c ∷ d ∷ cs) = c ∷ drop_last (d ∷ cs)
