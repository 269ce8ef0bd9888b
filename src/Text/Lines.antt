-- ===== src/Text/Lines.antt =====
-- Lines that are written and read.
use phd_thesis_src.Prelude.{
  append_assoc, append-nil, ℕ, ◌≡◌, refl, sym, ap, ◌∙◌, false, [], ◌∷◌, ◌++◌, ◌==◌, All,
}
use phd_thesis_src.Text.{Bytes, split_lines, drop_last}

-- Not the end of a line.
abbrev pub InLine : ℕ → Type 0
InLine c = (c == b'\n') ≡ false

pub split_lines-append :
    (line w rest : Bytes)
    → All InLine w
    → split_lines line (w ++ (b'\n' ∷ rest)) ≡ (line ++ w) ∷ split_lines [] rest
unfolding split_lines
split_lines-append line [] rest h = ap (λ l. l ∷ split_lines [] rest) (sym (append-nil line))
split_lines-append line (c ∷ w) rest h = rw (h.0) (
    split_lines-append (line ++ (c ∷ [])) w rest h.1
    ∙ ap (λ l. l ∷ split_lines [] rest) (append_assoc line (c ∷ []) w))

pub drop_last-append : (w : Bytes) (c : ℕ) → drop_last (w ++ (c ∷ [])) ≡ w
drop_last-append [] c = refl
drop_last-append (b ∷ []) c = refl
drop_last-append (b ∷ d ∷ w) c = ap (λ t. b ∷ t) (drop_last-append (d ∷ w) c)
