-- ===== src/Deployment.antt =====
-- src/deployment-contract.ts: the declaration that a host row injects into the page, and its reader.
use dsh_ai_coding.Base.{
  ◌&&◌, ◌≡◌, refl, String, Option, none, some, str_eq, is_none, if◌then◌else◌, Json, string, object,
  JsonFields, field, closed, field_of, record_of, nonempty,
}

pub data AuthMode : Type 0 where
  account static_token : AuthMode

pub record PlatformDeclaration : Type 0 where
  pub api_base_url : String
  pub access_token : Option String

pub record WorkspaceDeclaration : Type 0 where
  pub api_base_url : Option String
  pub access_token : Option String
  pub auth_mode : Option AuthMode

-- `{ kind: 'global', name, value }`, of which the value is kept.
pub record Injection (A : Type 0) : Type 0 where
  pub value : A

pub record Declaration : Type 0 where
  pub api_base_url : String
  pub access_token : Option String
  pub workspace_api_base_url : Option String
  pub workspace_access_token : Option String
  pub auth_mode : Option AuthMode

-- An absent or empty text is left out.
abbrev pub filled : Option String → Option String
filled none = none
filled (some String.[]) = none
filled (some s) = some s

abbrev pub static_of : WorkspaceDeclaration → Option String
static_of d = elim d.auth_mode [
  | none ↦ none
  | some m ↦ elim m [ account ↦ none | static_token ↦ d.access_token ]
]

unfoldable pub platform_injection :
    Option PlatformDeclaration → Option (Injection PlatformDeclaration)
platform_injection none = none
platform_injection (some d) = elim (filled (some d.api_base_url)) [
  | none ↦ none
  | some url ↦ some (record { value = d })
]

abbrev pub trimmed : WorkspaceDeclaration → WorkspaceDeclaration
trimmed d = record {
  api_base_url = filled d.api_base_url;
  access_token = filled (static_of d);
  auth_mode = d.auth_mode;
}

unfoldable pub workspace_injection :
    Option WorkspaceDeclaration → Option (Injection WorkspaceDeclaration)
workspace_injection none = none
workspace_injection (some d) =
    let t = trimmed d in
    if is_none t.api_base_url && is_none t.access_token && is_none t.auth_mode
    then none
    else some (record { value = t })

-- `slice`, of a global that may hold anything.
abbrev pub slice : Option Json → Option JsonFields
slice value = record_of value

-- `text`, of a slice that may be missing.
abbrev pub text_of : Option JsonFields → String → Option String
text_of none key = none
text_of (some fields) key = nonempty (field_of key fields)

abbrev pub mode_of_text : String → Option AuthMode
mode_of_text s =
    if str_eq s "account"
    then some account
    else if str_eq s "static-token"
    then some static_token
    else none

abbrev pub mode_of : Option JsonFields → Option AuthMode
mode_of none = none
mode_of (some fields) = elim (field_of "authMode" fields) [
  | some (string s) ↦ mode_of_text s
  | _ ↦ none
]

-- The arguments are the two globals of the page.
unfoldable pub read_declaration : Option Json → Option Json → Option Declaration
read_declaration platform workspace = elim (text_of (slice platform) "apiBaseUrl") [
  | none ↦ none
  | some url ↦ some (record {
    api_base_url = url;
    access_token = text_of (slice platform) "accessToken";
    workspace_api_base_url = text_of (slice workspace) "apiBaseUrl";
    workspace_access_token = text_of (slice workspace) "accessToken";
    auth_mode = mode_of (slice workspace);
  })
]

-- The JSON of a declaration, of which an absent key is left out.
abbrev pub with_text : String → Option String → JsonFields → JsonFields
with_text key none rest = rest
with_text key (some s) rest = field key (string s) rest

abbrev pub mode_text : Option AuthMode → Option String
mode_text none = none
mode_text (some account) = some "account"
mode_text (some static_token) = some "static-token"

abbrev pub platform_json : Option (Injection PlatformDeclaration) → Option Json
platform_json none = none
platform_json (some i) = some (
    object (
      field "apiBaseUrl" (string i.value.api_base_url)
        (with_text "accessToken" i.value.access_token closed)))

abbrev pub workspace_json : Option (Injection WorkspaceDeclaration) → Option Json
workspace_json none = none
workspace_json (some i) = some (
    object (
      with_text "apiBaseUrl" i.value.api_base_url (
        with_text "accessToken" i.value.access_token
          (with_text "authMode" (mode_text i.value.auth_mode) closed))))

-- The token of the workspace that a page may learn.
abbrev pub disclosed : WorkspaceDeclaration → Option String
disclosed d = elim d.auth_mode [
  | none ↦ none
  | some m ↦ elim m [ account ↦ none | static_token ↦ filled d.access_token ]
]

abbrev pub declared : PlatformDeclaration → WorkspaceDeclaration → String → Declaration
declared p w url = record {
  api_base_url = url;
  access_token = filled p.access_token;
  workspace_api_base_url = filled w.api_base_url;
  workspace_access_token = disclosed w;
  auth_mode = w.auth_mode;
}

abbrev pub workspace_of : Option String → Option String → Option AuthMode → WorkspaceDeclaration
workspace_of url token m = record { api_base_url = url; access_token = token; auth_mode = m }

abbrev pub injected : WorkspaceDeclaration → Option JsonFields
injected w = slice (workspace_json (workspace_injection (some w)))

abbrev IsRead : WorkspaceDeclaration → Type 0
IsRead w =
    (text_of (injected w) "apiBaseUrl" ≡ filled w.api_base_url)
    × (text_of (injected w) "accessToken" ≡ disclosed w)
    × (mode_of (injected w) ≡ w.auth_mode)

-- What the page reads of a workspace row that was injected, or was left out as it says nothing.
workspace-IsRead :
    (url token : Option String) (m : Option AuthMode) → IsRead (workspace_of url token m)
unfolding workspace_injection
workspace-IsRead none token none = (refl, refl, refl)
workspace-IsRead none token (some account) = (refl, refl, refl)
workspace-IsRead none none (some static_token) = (refl, refl, refl)
workspace-IsRead none (some String.[]) (some static_token) = (refl, refl, refl)
workspace-IsRead none (some (String.◌∷◌ d t)) (some static_token) = (refl, refl, refl)
workspace-IsRead (some String.[]) token none = (refl, refl, refl)
workspace-IsRead (some String.[]) token (some account) = (refl, refl, refl)
workspace-IsRead (some String.[]) none (some static_token) = (refl, refl, refl)
workspace-IsRead (some String.[]) (some String.[]) (some static_token) = (refl, refl, refl)
workspace-IsRead (some String.[]) (some (String.◌∷◌ d t)) (some static_token) = (refl, refl, refl)
workspace-IsRead (some (String.◌∷◌ c u)) token none = (refl, refl, refl)
workspace-IsRead (some (String.◌∷◌ c u)) token (some account) = (refl, refl, refl)
workspace-IsRead (some (String.◌∷◌ c u)) none (some static_token) = (refl, refl, refl)
workspace-IsRead (some (String.◌∷◌ c u)) (some String.[]) (some static_token) = (refl, refl, refl)
workspace-IsRead (some (String.◌∷◌ c u)) (some (String.◌∷◌ d t)) (some static_token) =
    (refl, refl, refl)

-- The page reads the declaration back that the two rows inject: the platform endpoint and token,
-- and of the workspace row its endpoint, its mode and, in the static token mode only, its token; an
-- absent or empty text is absent. Without a platform endpoint the page reads no declaration.
pub read_declaration-injection :
    (p : PlatformDeclaration) (w : WorkspaceDeclaration)
    → read_declaration
        (platform_json (platform_injection (some p)))
        (workspace_json (workspace_injection (some w)))
      ≡ (elim (filled (some p.api_base_url)) [ none ↦ none | some url ↦ some (declared p w url) ])
unfolding read_declaration platform_injection
read_declaration-injection p w =
    go p.api_base_url p.access_token (workspace-IsRead w.api_base_url w.access_token w.auth_mode)
  where
    go :
        (url : String) (token : Option String)
        → IsRead w
        → read_declaration
            (platform_json
              (platform_injection (some (record { api_base_url = url; access_token = token }))))
            (workspace_json (workspace_injection (some w)))
          ≡ (elim (filled (some url)) as (λ _. Option Declaration) [
            | none ↦ none
            | some u ↦ some (declared (record { api_base_url = url; access_token = token }) w u)
          ])
    go String.[] token h = refl
    go (String.◌∷◌ c u) none h = cc (h.0, h.1, h.2)
    go (String.◌∷◌ c u) (some String.[]) h = cc (h.0, h.1, h.2)
    go (String.◌∷◌ c u) (some (String.◌∷◌ d t)) h = cc (h.0, h.1, h.2)
