-- ===== src/Reducer/Output.antt =====
-- The third file of core/LexImplicationsReducer.cc, and the implications that it names.
use phd_thesis_src.Prelude.{
  subst, ℕ, zero, suc, ◌<◌, ◌≡◌, refl, sym, ap, ap₂, ◌∙◌, List, [], ◌∷◌, ◌++◌, map, pos, ◌-ℤ◌,
  arith, All, length, get_elem?, some, Returns, append_assoc,
}
use phd_thesis_src.Text.{Bytes, show_nat, atoi, drop_last, split_lines}
use phd_thesis_src.Text.Numbers.{show_nat-append, show_nat-All, atoi-show_nat, read_digits_nil}
use phd_thesis_src.Text.Lines.{InLine, split_lines-append, drop_last-append}
use phd_thesis_src.Canonizing.{LexImplication}
use phd_thesis_src.Reducer.Texts.{read_indices, select}

-- The lines of the file: numbers from 1 on, each with one more character, which is cut off.
abbrev pub indices_text : List ℕ → Bytes
indices_text [] = []
indices_text (k ∷ ks) = show_nat (suc k) (b' ' ∷ b'\n' ∷ indices_text ks)

line_text :
    (k : ℕ) (rest : Bytes)
    → show_nat k (b' ' ∷ b'\n' ∷ rest) ≡ (show_nat k [] ++ (b' ' ∷ [])) ++ (b'\n' ∷ rest)
line_text k rest =
    show_nat-append k (b' ' ∷ b'\n' ∷ rest)
    ∙ sym (append_assoc (show_nat k []) (b' ' ∷ []) (b'\n' ∷ rest))

line-InLine : (k : ℕ) → All InLine (show_nat k [] ++ (b' ' ∷ []))
line-InLine k =
    rw (← show_nat-append k (b' ' ∷ []))
      (show_nat-All k (b' ' ∷ []) InLine (λ d lt. ground arith) (refl, tt))

-- The numbers in such a file are read back.
pub read_indices-indices_text : (ks : List ℕ) → read_indices (indices_text ks) ≡ map pos ks
unfolding read_indices
read_indices-indices_text [] = refl
read_indices-indices_text (k ∷ ks) =
    let w = show_nat (suc k) [] ++ (b' ' ∷ []) in
    let number : atoi (drop_last w) ≡ pos (suc k) =
      ap atoi (drop_last-append (show_nat (suc k) []) b' ')
      ∙ atoi-show_nat (suc k) []
      ∙ ap (λ q. pos q.0) (read_digits_nil (suc k)) in
    let less : pos (suc k) -ℤ pos 1 ≡ pos k = ground arith in
    ap (λ text. map (λ line. atoi (drop_last line) -ℤ pos 1) (split_lines [] text))
      (line_text (suc k) (indices_text ks))
    ∙ ap (map (λ line. atoi (drop_last line) -ℤ pos 1))
        (split_lines-append [] w (indices_text ks) (line-InLine (suc k)))
    ∙ ap₂ (λ a b. a ∷ b) (ap (λ z. z -ℤ pos 1) number ∙ less) (read_indices-indices_text ks)

-- The elements at the positions.
pub data Chosen {ℓ} {A : Type ℓ} (xs : List A) : List ℕ → List A → Type ℓ where
  done : Chosen xs [] []
  next :
      {k : ℕ} {ks : List ℕ} {x : A} {ys : List A}
      → get_elem? xs k ≡ some x
      → Chosen xs ks ys
      → Chosen xs (k ∷ ks) (x ∷ ys)

get_elem?-total :
    (xs : List LexImplication) (k : ℕ)
    → k < length xs
    → (x : LexImplication) × (get_elem? xs k ≡ some x)
get_elem?-total [] k h = absurd (omega arith)
get_elem?-total (x ∷ xs) zero h = (x, refl)
get_elem?-total (x ∷ xs) (suc k) h = get_elem?-total xs k (omega arith)

-- Positions inside the list give its elements there.
pub select-Chosen :
    (xs : List LexImplication) (ks : List ℕ)
    → All (λ k. k < length xs) ks
    → Returns (select xs (map pos ks)) (Chosen xs ks)
unfolding select
select-Chosen xs [] h = ([], refl, done)
select-Chosen xs (k ∷ ks) h =
    let (x, e) = get_elem?-total xs k h.0 in
    let (ys, run, rest) = select-Chosen xs ks h.1 in (x ∷ ys, rw (e, run) refl, next e rest)

get_elem?-All {ℓ κ} :
    {A : Type ℓ} (P : A → Type κ) (xs : List A) (k : ℕ) (x : A)
    → get_elem? xs k ≡ some x
    → All P xs
    → P x
get_elem?-All P [] k x e h = absurd (cc e)
get_elem?-All P (y ∷ xs) zero x e h = let same : y ≡ x = ground arith in subst P same h.0
get_elem?-All P (y ∷ xs) (suc k) x e h = get_elem?-All P xs k x e h.1

pub Chosen-All {ℓ κ} :
    {A : Type ℓ} (P : A → Type κ) (xs : List A) {ks : List ℕ} {ys : List A}
    → Chosen xs ks ys
    → All P xs
    → All P ys
Chosen-All P xs done h = tt
Chosen-All P xs (next {k} {ks} {x} e rest) h = (get_elem?-All P xs k x e h, Chosen-All P xs rest h)
