-- ===== src/Accounts/Records/Audits.antt =====
-- dev/team-skill-service/src/account-store.ts: the audit log.
use Prim.Native.String.{◌++◌ as str_append}
use dsh_ai_coding.Base.{
  ℕ, suc, String, Option, none, some, [], ◌∷◌, ◌++◌, any_of, str_eq, if◌then◌else◌,
}
use dsh_ai_coding.Accounts.Records.{
  AccountPrincipal, AuditResult, AccountStore, Machine, succeeded, failed,
}

-- The subject of an audit: the organization, the user and the project that it names.
pub record AuditSubject : Type 0 where
  pub organization_id : Option String
  pub user_id : Option String
  pub project_id : Option String

abbrev pub about : Option String → Option String → Option String → AuditSubject
about organization user project = record {
  organization_id = organization;
  user_id = user;
  project_id = project;
}

module _ (machine : Machine) (now : ℕ) where
  -- `recordAudit`.
  unfoldable pub record_audit :
      String
      → String
      → String
      → AuditResult
      → Option String
      → String
      → AuditSubject
      → AccountStore
      → AccountStore
  record_audit actor name action result code request subject s = record s {
    audits =
        s.audits
        ++ (record {
          id = machine.uuid s.drawn;
          occurred_at = now;
          actor_user_id = actor;
          actor_name = name;
          organization_id = subject.organization_id;
          target_user_id = subject.user_id;
          project_id = subject.project_id;
          action = action;
          result = result;
          error_code = code;
          request_id = request;
        }
            ∷ []);
    drawn = suc s.drawn;
  }

  -- An audit of something that the caller did.
  unfoldable pub audit_success :
      AccountPrincipal → String → String → AuditSubject → AccountStore → AccountStore
  unfolding record_audit
  audit_success p action request subject =
      record_audit p.user_id p.display_name action succeeded none request subject

  -- An audit of something that the caller was denied.
  unfoldable pub audit_denial :
      AccountPrincipal → String → String → String → AuditSubject → AccountStore → AccountStore
  unfolding record_audit
  audit_denial p action code request subject =
      record_audit p.user_id p.display_name action failed (some code) request subject

  abbrev pub denial_key : AccountPrincipal → String → String → String
  denial_key p action request =
      str_append p.user_id (str_append "|" (str_append action (str_append "|" request)))

  -- One audit per user, action and request.
  unfoldable pub audit_once :
      AccountPrincipal → String → String → String → AuditSubject → AccountStore → AccountStore
  unfolding audit_denial
  audit_once p action code request subject s =
      if any_of (str_eq (denial_key p action request)) s.denials
      then s
      else audit_denial p action code request subject
          (record s { denials = denial_key p action request ∷ s.denials })

  -- `recordGovernanceDenial`: the target stands in the place of the project.
  unfoldable pub record_governance_denial :
      AccountPrincipal → String → String → String → Option String → AccountStore → AccountStore
  unfolding audit_once
  record_governance_denial p action code request target =
      audit_once p action code request (about none none target)
