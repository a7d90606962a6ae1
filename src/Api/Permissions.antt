-- ===== src/Api/Permissions.antt =====
-- apps/api/osaip_api/permissions.py: roles, and how a request finds its project.
pub mod Visible
mod Tests
use osaip.Base.{
  ℕ, String, Bool, true, false, ◌&&◌, Option, none, some, List, [], ◌∷◌, leb, ◌==◌, ◌=s◌,
  if◌then◌else◌,
}

pub data Role : Type 0 where
  viewer editor admin : Role

pub record User : Type 0 where
  pub id : ℕ
  pub is_site_admin : Bool

pub record Project : Type 0 where
  pub id : ℕ
  pub key : String
  pub status : String

pub record ProjectMember : Type 0 where
  pub project_id : ℕ
  pub user_id : ℕ
  pub role : Role

-- `ROLE_ORDER`
unfoldable pub role_order : Role → ℕ
role_order Role.viewer = 1
role_order Role.editor = 2
role_order Role.admin = 3

unfoldable pub has_role : Option Role → Role → Bool
has_role none needed = false
has_role (some actual) needed = leb (role_order needed) (role_order actual)

pub record ProjectContext : Type 0 where
  pub project : Project
  pub role : Role

pub record Capabilities : Type 0 where
  pub can_edit : Bool
  pub can_manage_members : Bool
  pub can_archive : Bool
  pub can_manage_connections : Bool

unfoldable pub capabilities : ProjectContext → Capabilities
capabilities ctx =
    let active = ctx.project.status =s "active" in
    record {
      can_edit = active && has_role (some ctx.role) Role.editor;
      can_manage_members = active && has_role (some ctx.role) Role.admin;
      can_archive = active && has_role (some ctx.role) Role.admin;
      can_manage_connections = active && has_role (some ctx.role) Role.admin;
    }

-- The row of the member, of which there is one at most.
member_role : List ProjectMember → ℕ → ℕ → Option Role
member_role [] user project = none
member_role (m ∷ ms) user project =
    if m.project_id == project && m.user_id == user
    then some m.role
    else member_role ms user project

unfoldable pub membership_role : List ProjectMember → User → Project → Option Role
unfolding member_role
membership_role members user project =
    if user.is_site_admin then some Role.admin else member_role members user.id project.id

pub find_project : List Project → String → Option Project
find_project [] key = none
find_project (p ∷ ps) key = if p.key =s key then some p else find_project ps key

-- The context, or the problem that is raised: 404 with the key, or 403 with the two roles.
pub data Loaded : Type 0 where
  loaded : ProjectContext → Loaded
  not_found : String → Loaded
  forbidden : Role → Role → Loaded

with_role : Project → String → Role → Option Role → Loaded
with_role project key min_role none = not_found key
with_role project key min_role (some role) =
    if has_role (some role) min_role
    then loaded (record { project = project; role = role })
    else forbidden min_role role

with_project : List ProjectMember → User → String → Role → Option Project → Loaded
unfolding with_role
with_project members user key min_role none = not_found key
with_project members user key min_role (some project) =
    with_role project key min_role (membership_role members user project)

unfoldable pub load_project_context :
    List ProjectMember → List Project → User → String → Role → Loaded
unfolding find_project with_project
load_project_context members projects user key min_role =
    with_project members user key min_role (find_project projects key)
