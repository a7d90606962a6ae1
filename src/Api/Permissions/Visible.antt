-- ===== src/Api/Permissions/Visible.antt =====
-- What an answer tells of a project that the user is no member of.
use mathlib.Core.Path.{subst}
use osaip.Base.{
  ◌≤◌, ◌≡◌, refl, sym, ap, ◌∙◌, String, Bool, true, false, Option, none, some, List, [], ◌∷◌, keep,
  All, ◌=s◌, eq_iff, Bool-cases, inl, inr, arith,
}
use osaip.Api.Permissions.{
  Role, User, Project, ProjectMember, ProjectContext, role_order, has_role, membership_role,
  find_project, Loaded, loaded, not_found, with_role, with_project, load_project_context,
}

has_any : Option Role → Bool
has_any none = false
has_any (some role) = true

-- The user has a role in the project.
unfoldable pub sees : List ProjectMember → User → Project → Bool
unfolding has_any
sees members user p = has_any (membership_role members user p)

-- No two projects have one key.
abbrev pub KeysDiffer : List Project → Type 0
KeysDiffer [] = Unit
KeysDiffer (p ∷ ps) = All (λ (q : Project). (q.key =s p.key) ≡ false) ps × KeysDiffer ps

module _ (members : List ProjectMember) (user : User) (key : String) (min_role : Role) where
  abbrev answer : Option Project → Loaded
  answer = with_project members user key min_role

  hidden_role :
      (p : Project) (role : Option Role)
      → has_any role ≡ false
      → with_role p key min_role role ≡ not_found key
  unfolding with_role has_any
  hidden_role p none h = refl
  hidden_role p (some role) h = cc h

  hidden : (p : Project) → sees members user p ≡ false → answer (some p) ≡ not_found key
  unfolding with_project sees
  hidden p h = hidden_role p (membership_role members user p) h

  absent :
      (ps : List Project)
      → All (λ (q : Project). (q.key =s key) ≡ false) ps
      → find_project (keep (sees members user) ps) key ≡ none
  unfolding find_project
  absent [] h = refl
  absent (p ∷ ps) h = ground (arith, absent ps h.1, h.0)

  visible_step :
      (ps : List Project)
      → KeysDiffer ps
      → answer (find_project ps key) ≡ answer (find_project (keep (sees members user) ps) key)
  unfolding find_project with_project
  visible_step [] h = refl
  visible_step (p ∷ ps) h = elim (Bool-cases (p.key =s key)) [
    | inl same ↦ elim (Bool-cases (sees members user p)) [
      | inl seen ↦ rw (same, seen) (rw same refl)
      | inr unseen ↦
          rw (same, unseen)
            (hidden p unseen
              ∙ sym (
                  ap answer (
                    absent ps (
                      subst (λ k. All (λ (q : Project). (q.key =s k) ≡ false) ps)
                        ((eq_iff p.key key).0 same) h.0))))
    ]
    | inr other ↦ elim (Bool-cases (sees members user p)) [
      | inl seen ↦ rw (other, seen) (rw other (visible_step ps h.1))
      | inr unseen ↦ rw (other, unseen) (visible_step ps h.1)
    ]
  ]

-- The answer to a request for a project is the one that a platform would give which held only the
-- projects that the user has a role in: whether another project exists is not told. No two projects
-- have one key.
pub load_project_context-sees :
    (members : List ProjectMember) (projects : List Project) (user : User) (key : String)
    (min_role : Role)
    → KeysDiffer projects
    → load_project_context members projects user key min_role
      ≡ load_project_context members (keep (sees members user) projects) user key min_role
unfolding load_project_context
load_project_context-sees members projects user key min_role h =
    visible_step members user key min_role projects h

with_role_lower :
    (p : Project) (key : String) (low high : Role) (role : Option Role) {ctx : ProjectContext}
    → role_order low ≤ role_order high
    → with_role p key high role ≡ loaded ctx
    → with_role p key low role ≡ loaded ctx
unfolding with_role has_role
with_role_lower p key low high none le e = cc e
with_role_lower p key low high (some role) le e = ground arith

-- A request that is let in with a role needed is let in, to the same project in the same role, where
-- no higher role is needed.
pub load_project_context_lower :
    (members : List ProjectMember) (projects : List Project) (user : User) (key : String)
    (low high : Role) {ctx : ProjectContext}
    → role_order low ≤ role_order high
    → load_project_context members projects user key high ≡ loaded ctx
    → load_project_context members projects user key low ≡ loaded ctx
unfolding load_project_context with_project
load_project_context_lower members projects user key low high {ctx = ctx} le e =
    found_lower (find_project projects key) e
  where
    found_lower :
        (found : Option Project)
        → with_project members user key high found ≡ loaded ctx
        → with_project members user key low found ≡ loaded ctx
    found_lower none e = cc e
    found_lower (some p) e = with_role_lower p key low high (membership_role members user p) le e
