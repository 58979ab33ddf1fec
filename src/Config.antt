-- ===== src/Config.antt =====
-- internal/config/config.go: what `Validate` accepts.
pub mod Valid
pub mod Settings
pub mod Load
pub mod Loaded
use opcua_mcp.Prelude.{
  ℕ, String, Bool, true, false, not, ◌||◌, ◌&&◌, List, [], ◌∷◌, Option, none, some, ◌==◌, string_eq,
  if◌then◌else◌,
}
use opcua_mcp.Prelude.Int.{ℤ}
use opcua_mcp.Prelude.Text.{is_empty}

pub record ServerConfig : Type 0 where
  pub http_port : String
  pub transport : String
  pub log_level : String
  pub log_format : String
  pub log_output : String
  pub log_file : String
  pub log_add_source : Bool

pub record OpcuaConfig : Type 0 where
  pub endpoint : String
  pub auth_mode : String
  pub username : String
  pub password : String
  pub cert_file : String
  pub key_file : String
  pub server_cert : String
  pub security_policy : String
  pub security_mode : String
  pub request_timeout : ℤ
  pub session_timeout : ℤ
  pub max_retries : ℤ
  pub retry_delay : ℤ

-- The parts of `Config` that `Validate` reads.
pub record Config : Type 0 where
  pub server : ServerConfig
  pub opcua : OpcuaConfig

pub record ValidationError : Type 0 where
  pub field : String
  pub message : String

-- The lookup in a `map[string]bool` whose values are all true.
unfoldable pub is_one_of : List String → String → Bool
is_one_of [] s = false
is_one_of (x ∷ xs) s = x == s || is_one_of xs s

abbrev pub valid_auth_modes : List String
valid_auth_modes = "anonymous" ∷ "username" ∷ "certificate" ∷ []

abbrev pub valid_security_policies : List String
valid_security_policies =
    "None" ∷ "Basic128Rsa15" ∷ "Basic256" ∷ "Basic256Sha256" ∷ "Aes128_Sha256_RsaOaep" ∷ []

abbrev pub valid_security_modes : List String
valid_security_modes = "None" ∷ "Sign" ∷ "SignAndEncrypt" ∷ []

abbrev pub reject : String → String → Option ValidationError
reject field message = some (record { field = field; message = message })

abbrev pub needs_certificate : OpcuaConfig → Bool
needs_certificate o =
    o.auth_mode == "certificate"
    || not (o.security_policy == "None")
    || not (o.security_mode == "None")

abbrev pub validate_certificate : OpcuaConfig → Option ValidationError
validate_certificate o =
    if needs_certificate o && is_empty o.cert_file
    then reject "OPCUA_CERT_FILE"
        "required when AUTH_MODE is 'certificate' or SECURITY_POLICY/SECURITY_MODE is not 'None'"
    else if needs_certificate o && is_empty o.key_file
    then reject "OPCUA_KEY_FILE"
        "required when AUTH_MODE is 'certificate' or SECURITY_POLICY/SECURITY_MODE is not 'None'"
    else none

abbrev pub validate_user : OpcuaConfig → Option ValidationError
validate_user o =
    if o.auth_mode == "username" && is_empty o.username
    then reject "OPCUA_USERNAME" "required when AUTH_MODE is 'username'"
    else if o.auth_mode == "username" && is_empty o.password
    then reject "OPCUA_PASSWORD" "required when AUTH_MODE is 'username'"
    else validate_certificate o

unfoldable pub validate : Config → Option ValidationError
unfolding is_one_of
validate c =
    let o = c.opcua in
    if not (c.server.transport == "stdio") && not (c.server.transport == "http")
    then reject "SERVER_TRANSPORT" "must be 'stdio' or 'http'"
    else if not (is_one_of valid_auth_modes o.auth_mode)
    then reject "OPCUA_AUTH_MODE" "must be 'anonymous', 'username', or 'certificate'"
    else if not (is_one_of valid_security_policies o.security_policy)
    then reject "OPCUA_SECURITY_POLICY" "invalid security policy"
    else if not (is_one_of valid_security_modes o.security_mode)
    then reject "OPCUA_SECURITY_MODE" "invalid security mode"
    else validate_user o
