-- ===== src/Constraints/Ints.antt =====
-- `newIntVar`, `newPermutation` and `intEqReif` of core/ConstraintSolver.cc.
pub mod Single
pub mod Rows
pub mod Reads
pub mod Permutations
use phd_thesis_src.Prelude.{
  ℕ, zero, suc, ◌-◌, List, [], ◌∷◌, ◌++◌, ℤ, pos, negsuc, ◌+ℤ◌, ◌-ℤ◌, sub_ℕ, get_elem?, Result, ok,
  err, out_of_range, undefined_access, ◌>>=◌, orelse,
}
use phd_thesis_src.Constraints.{BoolVarRef, IntVarRef, IntVar, Solver, new_bool_vars}
use phd_thesis_src.Constraints.Cardinality.{exactly_one}

-- The rounds of `for (int i = lb; i <= ub; ++i)`.
abbrev pub rounds : ℤ → ℤ → ℕ
rounds lb ub = elim (ub -ℤ lb +ℤ pos 1) [ pos n ↦ n | negsuc n ↦ 0 ]

-- `m_nextIntID` and `m_ints` are not read by the calls in between.
pub new_int_var : ℤ → ℤ → Solver → IntVarRef × Solver
new_int_var lb ub s =
    let (bools, s₁) = new_bool_vars (rounds lb ub) s in
    let s₂ = exactly_one bools s₁ in
    let v : IntVar = record { lb = lb; ub = ub; bools = bools } in
    (s.next_int_id, record s₂ { ints = s₂.ints ++ (v ∷ []); next_int_id = suc s.next_int_id })

-- The first loop of `newPermutation`: `k` variables that range over 0 .. n - 1.
pub int_vars : ℕ → ℕ → Solver → List IntVarRef × Solver
unfolding new_int_var
int_vars zero n s = ([], s)
int_vars (suc k) n s =
    let (v, s₁) = new_int_var (pos 0) (sub_ℕ n 1) s in
    let (vs, s₂) = int_vars k n s₁ in (v ∷ vs, s₂)

-- The references for the value `num` of the variables; both reads go through `at`.
pub column : ℕ → List IntVarRef → List IntVar → Result (List BoolVarRef)
column num [] ints = ok []
column num (p ∷ ps) ints = orelse (get_elem? ints p) out_of_range >>= (λ v.
    orelse (get_elem? v.bools num) out_of_range
    >>= (λ b. column num ps ints >>= (λ bs. ok (b ∷ bs))))

-- The second loop of `newPermutation`, `k` rounds from `num` on.
pub distinct : ℕ → ℕ → List IntVarRef → Solver → Result Solver
unfolding column
distinct num zero perm s = ok s
distinct num (suc k) perm s =
    column num perm s.ints >>= (λ col. distinct (suc num) k perm (exactly_one col s))

pub new_permutation : ℕ → Solver → Result (List IntVarRef × Solver)
unfolding int_vars distinct
new_permutation n s =
    let (perm, s₁) = int_vars n n s in distinct 0 n perm s₁ >>= (λ s₂. ok (perm, s₂))

-- m_ints[vi].bools[c - lb]
pub int_eq_reif : IntVarRef → ℤ → Solver → Result BoolVarRef
int_eq_reif vi c s = orelse (get_elem? s.ints vi) undefined_access >>= (λ v. elim (c -ℤ v.lb) [
  | pos k ↦ orelse (get_elem? v.bools k) undefined_access
  | negsuc k ↦ err undefined_access
])
