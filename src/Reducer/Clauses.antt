-- ===== src/Reducer/Clauses.antt =====
-- core/LexImplicationsReducer.cc: the clauses of the two files, as lists of literals, with the cache of
-- the gates.
use phd_thesis_src.Prelude.{
  ℕ, zero, suc, ◌-◌, ◌/◌, ◌%◌, List, [], ◌∷◌, ◌++◌, ℤ, pos, ◌==◌, ◌==ℤ◌, none, some, Result, ok,
  err, undefined_access, ◌>>=◌, if◌then◌else◌,
}
use phd_thesis_src.Text.{Bytes}
use phd_thesis_src.Matrix.{Matrix, get, permute, upper_triangle, core_lower_triangle}
use phd_thesis_src.Constraints.{neg}
use phd_thesis_src.Constraints.IffCache.{find}
use phd_thesis_src.Canonizing.{
  CanonicalIndexing, upper_triangle_rows, upper_triangle_cols, LexImplication,
}
use phd_thesis_src.Reducer.Construct.{LexImplicationsReducer}

unfoldable pub indexing : CanonicalIndexing → Matrix ℤ → Result (List ℤ)
indexing upper_triangle_rows g = upper_triangle g
indexing upper_triangle_cols g = core_lower_triangle g

-- indexing( m_adjMatrix.permute( perm ) )
unfoldable pub permuted_string : List ℕ → LexImplicationsReducer → Result (List ℤ)
unfolding indexing
permuted_string perm r = permute r.adj_matrix perm >>= indexing r.index

-- The clauses that make `t` the equality of `a` and `b`.
abbrev pub iff_clauses : ℤ → ℤ → ℤ → List (List ℤ)
iff_clauses a b t =
    (a ∷ b ∷ t ∷ [])
    ∷ (neg a ∷ neg b ∷ t ∷ [])
    ∷ (a ∷ neg b ∷ neg t ∷ [])
    ∷ (neg a ∷ b ∷ neg t ∷ [])
    ∷ []

-- A new number for the pair.
abbrev pub remember : ℤ → ℤ → LexImplicationsReducer → LexImplicationsReducer
remember a b r = record r {
  iff_reif_cache = ((a, b), pos r.next_bool_id) ∷ r.iff_reif_cache;
  next_bool_id = suc r.next_bool_id;
}

-- The clauses that are written for one pair, if it is in the cache in neither order.
unfoldable pub tseiten_pair :
    ℤ → ℤ → LexImplicationsReducer → List (List ℤ) × LexImplicationsReducer
tseiten_pair a b r = elim (find a b r.iff_reif_cache) [
  | some t ↦ ([], r)
  | none ↦ elim (find b a r.iff_reif_cache) [
    | some t ↦ ([], r)
    | none ↦ (iff_clauses a b (pos r.next_bool_id), remember a b r)
  ]
]

-- The first `k` positions of the strings.
unfoldable pub tseiten_pairs :
    ℕ → List ℤ → List ℤ → LexImplicationsReducer → Result (List (List ℤ) × LexImplicationsReducer)
unfolding tseiten_pair
tseiten_pairs zero xs ys r = ok ([], r)
tseiten_pairs (suc k) [] ys r = err undefined_access
tseiten_pairs (suc k) (x ∷ xs) [] r = err undefined_access
tseiten_pairs (suc k) (x ∷ xs) (y ∷ ys) r =
    let p = tseiten_pair x y r in tseiten_pairs k xs ys p.1 >>= (λ q. ok (p.0 ++ q.0, q.1))

-- The number of the equality of a pair, from the cache in either order or new.
unfoldable pub iff_reif : ℤ → ℤ → LexImplicationsReducer → ℤ × LexImplicationsReducer
iff_reif a b r = elim (find a b r.iff_reif_cache) [
  | some t ↦ (t, r)
  | none ↦ elim (find b a r.iff_reif_cache) [
    | some t ↦ (t, r)
    | none ↦ (pos r.next_bool_id, remember a b r)
  ]
]

-- The clause of the implication whose length is `k + 1`.
unfoldable pub implication_clause :
    ℕ → List ℤ → List ℤ → LexImplicationsReducer → Result (List ℤ × LexImplicationsReducer)
unfolding iff_reif
implication_clause k [] ys r = err undefined_access
implication_clause k (x ∷ xs) [] r = err undefined_access
implication_clause zero (x ∷ xs) (y ∷ ys) r = ok (neg x ∷ y ∷ [], r)
implication_clause (suc k) (x ∷ xs) (y ∷ ys) r =
    let p = iff_reif x y r in implication_clause k xs ys p.1 >>= (λ q. ok (neg p.0 ∷ q.0, q.1))

unfoldable pub bool_arrays_lex_implication :
    List ℤ → List ℤ → ℕ → LexImplicationsReducer → Result (List ℤ × LexImplicationsReducer)
unfolding implication_clause
bool_arrays_lex_implication arr₁ arr₂ zero r = err undefined_access
bool_arrays_lex_implication arr₁ arr₂ (suc k) r = implication_clause k arr₁ arr₂ r

-- The loop over the implications of `writeTseitenCnfFile` with one argument, and over `delta`.
unfoldable pub tseiten_set :
    List ℤ
    → List LexImplication
    → LexImplicationsReducer
    → Result (List (List ℤ) × LexImplicationsReducer)
unfolding permuted_string tseiten_pairs
tseiten_set arr₁ [] r = ok ([], r)
tseiten_set arr₁ (x ∷ xs) r = permuted_string x.perm r >>= (λ arr₂.
    tseiten_pairs (x.length - 1) arr₁ arr₂ r
    >>= (λ p. tseiten_set arr₁ xs p.1 >>= (λ q. ok (p.0 ++ q.0, q.1))))

-- The loop over the implications that are given: their clauses are written too.
unfoldable pub given_set :
    List ℤ
    → List LexImplication
    → LexImplicationsReducer
    → Result (List (List ℤ) × LexImplicationsReducer)
unfolding permuted_string tseiten_pairs bool_arrays_lex_implication
given_set arr₁ [] r = ok ([], r)
given_set arr₁ (x ∷ xs) r = permuted_string x.perm r >>= (λ arr₂.
    tseiten_pairs (x.length - 1) arr₁ arr₂ r >>= (λ p.
      bool_arrays_lex_implication arr₁ arr₂ x.length p.1
      >>= (λ c. given_set arr₁ xs c.1 >>= (λ q. ok (p.0 ++ (c.0 ∷ q.0), q.1)))))

-- The loop "embed subgraph" from position `j` on, `k` entries to a row.
unfoldable pub subgraph_units : ℕ → ℕ → Bytes → LexImplicationsReducer → Result (List (List ℤ))
subgraph_units k j [] r = ok []
subgraph_units k j (c ∷ cs) r = get r.adj_matrix (j / k) (j % k) >>= (λ x.
    subgraph_units k (suc j) cs r >>= (λ units.
      ok (if x ==ℤ pos 0 then units else ((if c == b'0' then neg x else x) ∷ []) ∷ units)))

-- The loop over the implications of `writeImplicationsCnfFile`.
unfoldable pub clause_set :
    List ℤ
    → List LexImplication
    → LexImplicationsReducer
    → Result (List (List ℤ) × LexImplicationsReducer)
unfolding permuted_string bool_arrays_lex_implication
clause_set arr₁ [] r = ok ([], r)
clause_set arr₁ (x ∷ xs) r = permuted_string x.perm r >>= (λ arr₂.
    bool_arrays_lex_implication arr₁ arr₂ x.length r
    >>= (λ c. clause_set arr₁ xs c.1 >>= (λ q. ok (c.0 ∷ q.0, q.1))))
