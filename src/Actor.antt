-- ===== src/Actor.antt =====
-- The authority of a caller (src/researchctl/services/actor.py).
use research_agent_ops.Base.{
  String, Bool, true, false, ◌&&◌, not, Option, none, some, List, any, ◌==◌, string_eq, option_eq,
  if◌then◌else◌,
}
use research_agent_ops.Errors.{
  Result, ok, err, value_error, authorization_denied, session_scope_denied,
}

pub data ActorRole : Type 0 where
  manager agent runner trusted_automation : ActorRole

pub data CredentialKind : Type 0 where
  local_os session_capability runner_credential automation_credential : CredentialKind

abbrev pub role_eq : ActorRole → ActorRole → Bool
role_eq manager manager = true
role_eq agent agent = true
role_eq runner runner = true
role_eq trusted_automation trusted_automation = true
role_eq _ _ = false

abbrev pub credential_eq : CredentialKind → CredentialKind → Bool
credential_eq local_os local_os = true
credential_eq session_capability session_capability = true
credential_eq runner_credential runner_credential = true
credential_eq automation_credential automation_credential = true
credential_eq _ _ = false

-- _ROLE_CREDENTIALS
abbrev pub role_credentials : ActorRole → CredentialKind
role_credentials manager = local_os
role_credentials agent = session_capability
role_credentials runner = runner_credential
role_credentials trusted_automation = automation_credential

pub record ActorContext : Type 0 where
  pub actor_id : String
  pub role : ActorRole
  pub credential_kind : CredentialKind
  pub bound_session_id : Option String

abbrev pub session_scoped : ActorRole → Bool
session_scoped agent = true
session_scoped runner = true
session_scoped _ = false

abbrev is_bound : Option String → Bool
is_bound none = false
is_bound (some s) = true

-- `require_credential_binding`, the validation of a context
unfoldable pub require_credential_binding : ActorContext → Result ActorContext
require_credential_binding a =
    if not (credential_eq a.credential_kind (role_credentials a.role))
    then err value_error
    else if session_scoped a.role && not (is_bound a.bound_session_id)
    then err value_error
    else if not (session_scoped a.role) && is_bound a.bound_session_id
    then err value_error
    else ok a

unfoldable pub require_role : ActorContext → List ActorRole → Result (Unit {0})
require_role a allowed = if any (role_eq a.role) allowed then ok tt else err authorization_denied

unfoldable pub require_session_scope : ActorContext → String → Bool → Result (Unit {0})
require_session_scope a session_id manager_allowed =
    if manager_allowed && role_eq a.role manager
    then ok tt
    else if a.bound_session_id == some session_id
    then ok tt
    else err session_scope_denied
