-- ===== src/Api/Permissions/Tests.antt =====
-- A project of the user's, and one of another's.
use osaip.Base.{◌≡◌, refl, false, List, [], ◌∷◌}
use osaip.Api.Permissions.{
  Role, User, Project, ProjectMember, not_found, load_project_context, membership_role,
}
use osaip.Api.Permissions.Visible.{sees, load_project_context-sees}

abbrev user : User
user = record { id = 1; is_site_admin = false }

abbrev own : Project
own = record { id = 10; key = "own"; status = "active" }

abbrev secret : Project
secret = record { id = 20; key = "secret"; status = "active" }

abbrev members : List ProjectMember
members =
    record { project_id = 20; user_id = 2; role = Role.admin }
    ∷ record { project_id = 10; user_id = 1; role = Role.editor }
    ∷ []

secret-not_found :
    load_project_context members (own ∷ secret ∷ []) user "secret" Role.viewer ≡ not_found "secret"
unfolding load_project_context membership_role
secret-not_found = refl

load_project_context-sees_example :
    load_project_context members (own ∷ secret ∷ []) user "secret" Role.viewer
    ≡ load_project_context members (own ∷ []) user "secret" Role.viewer
unfolding sees membership_role
load_project_context-sees_example =
    load_project_context-sees members (own ∷ secret ∷ []) user "secret" Role.viewer
      ((refl, tt), (tt, tt))
