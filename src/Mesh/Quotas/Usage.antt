-- ===== src/Mesh/Quotas/Usage.antt =====
-- What the holds of one reservation add to the window of a scope.
use osaip.Base.{
  ℕ, ◌+◌, ◌≤◌, ◌≡◌, refl, Bool, true, false, ◌&&◌, Option, none, some, List, [], ◌∷◌, sum_where,
  ◌==◌, arith,
}
use osaip.Mesh.Models.{ScopeType, QuotaReservation}
use osaip.Mesh.Quotas.{
  Scope, same_type, holds, hold_for, holds_from, over, insert_scope, sort_scopes,
}

abbrev pub same_scope : Scope → Scope → Bool
same_scope s t = same_type t.scope_type s.scope_type && t.scope_id == s.scope_id

-- How often a list of scopes names a scope.
abbrev pub count_scope : Scope → List Scope → ℕ
count_scope s ss = sum_where (same_scope s) (λ t. 1) ss

same_type→eq : (a b : ScopeType) → same_type a b ≡ true → a ≡ b
same_type→eq a b h = ground arith

pub same_scope→eq : (s t : Scope) → same_scope s t ≡ true → t ≡ s
same_scope→eq s t h = ground (arith, same_type→eq t.scope_type s.scope_type)

pub same_type_refl : (a : ScopeType) → same_type a a ≡ true
same_type_refl a = ground arith

pub count_scope-insert :
    (s t : Scope) (ts : List Scope) → count_scope s (insert_scope t ts) ≡ count_scope s (t ∷ ts)
unfolding insert_scope
count_scope-insert s t [] = refl
count_scope-insert s t (u ∷ us) = ground (arith, count_scope-insert s t us)

pub count_scope-sort :
    (s : Scope) (ts : List Scope) → count_scope s (sort_scopes ts) ≡ count_scope s ts
unfolding sort_scopes
count_scope-sort s [] = refl
count_scope-sort s (t ∷ ts) =
    omega (arith, count_scope-insert s t (sort_scopes ts), count_scope-sort s ts)

module _ (s : Scope) (since now estimated : ℕ) (value : QuotaReservation → ℕ) where
  -- A scope that is not among the pending ones gets no hold.
  pub holds_from-absent :
      (id : ℕ) (ps : List Scope)
      → count_scope s ps ≡ 0
      → sum_where (holds s since now) value (holds_from id now estimated ps) ≡ 0
  unfolding holds_from
  holds_from-absent id [] h = refl
  holds_from-absent id (p ∷ ps) h = ground (arith, holds_from-absent (id + 1) ps)

  -- A scope that is pending at most once gets at most one hold.
  pub holds_from-le :
      (bound id : ℕ) (ps : List Scope)
      → ((r : QuotaReservation) → r.estimated_micros ≡ estimated → value r ≤ bound)
      → count_scope s ps ≤ 1
      → sum_where (holds s since now) value (holds_from id now estimated ps) ≤ bound
  unfolding holds_from
  holds_from-le bound id [] v h = omega arith
  holds_from-le bound id (p ∷ ps) v h = ground (
    arith,
    v (hold_for id now estimated p) refl,
    holds_from-absent (id + 1) ps,
    holds_from-le bound (id + 1) ps v,
  )

pub over_mono : (a b : ℕ) (limit : Option ℕ) → a ≤ b → over b limit ≡ false → over a limit ≡ false
over_mono a b none le h = refl
over_mono a b (some l) le h = ground arith
