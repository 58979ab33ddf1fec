-- ===== src/Config/Valid.antt =====
-- The configurations that `Validate` of internal/config/config.go accepts.
use opcua_mcp.Prelude.{
  String, Bool, true, false, not, ◌&&◌, List, [], ◌∷◌, Option, none, some, ◌==◌, ==_iff, string_eq,
  if◌then◌else◌, ◌≡◌, ◌≢◌, ◌↔◌, ◌⊎◌, arith,
}
use opcua_mcp.Prelude.Text.{is_empty}
use opcua_mcp.Config.{
  Config, OpcuaConfig, ValidationError, is_one_of, valid_auth_modes, valid_security_policies,
  valid_security_modes, validate, validate_user, validate_certificate,
}

abbrev pub OneOf : String → List String → Type 0
OneOf s [] = ⊥
OneOf s (x ∷ xs) = (x ≡ s) ⊎ OneOf s xs

-- What a configuration needs to be used.
pub record IsUsable (c : Config) : Type 0 where
  pub transport : (c.server.transport ≡ "stdio") ⊎ (c.server.transport ≡ "http")
  pub auth : OneOf c.opcua.auth_mode valid_auth_modes
  pub policy : OneOf c.opcua.security_policy valid_security_policies
  pub mode : OneOf c.opcua.security_mode valid_security_modes
  pub user :
      c.opcua.auth_mode ≡ "username"
      → (is_empty c.opcua.username ≡ false) × (is_empty c.opcua.password ≡ false)
  pub certificate :
      (c.opcua.auth_mode ≡ "certificate")
        ⊎ (c.opcua.security_policy ≢ "None")
        ⊎ (c.opcua.security_mode ≢ "None")
      → (is_empty c.opcua.cert_file ≡ false) × (is_empty c.opcua.key_file ≡ false)

is_one_of_lem : (xs : List String) (s : String) → (is_one_of xs s ≡ true) ↔ OneOf s xs
unfolding is_one_of
is_one_of_lem [] s = ground arith
is_one_of_lem (x ∷ xs) s = ground (arith, is_one_of_lem xs s, ==_iff x s)

certificate_lem :
    (o : OpcuaConfig)
    → (validate_certificate o ≡ none) ↔ (
        (o.auth_mode ≡ "certificate") ⊎ (o.security_policy ≢ "None") ⊎ (o.security_mode ≢ "None")
        → (is_empty o.cert_file ≡ false) × (is_empty o.key_file ≡ false))
certificate_lem o = ground (
  arith,
  ==_iff o.auth_mode "certificate",
  ==_iff o.security_policy "None",
  ==_iff o.security_mode "None",
)

user_lem :
    (o : OpcuaConfig)
    → (validate_user o ≡ none) ↔ (
        (o.auth_mode ≡ "username" → (is_empty o.username ≡ false) × (is_empty o.password ≡ false))
        × (validate_certificate o ≡ none))
user_lem o = ground (arith, ==_iff o.auth_mode "username")

gates_lem :
    (t u a p m : Bool) (e1 e2 e3 e4 : ValidationError) (rest : Option ValidationError)
    → ((if not t && not u
          then some e1
          else if not a
          then some e2
          else if not p
          then some e3
          else if not m
          then some e4
          else rest)
        ≡ none)
      ↔ (((t ≡ true) ⊎ (u ≡ true)) × (a ≡ true) × (p ≡ true) × (m ≡ true) × (rest ≡ none))
gates_lem t u a p m e1 e2 e3 e4 rest = ground arith

validate_lem :
    (c : Config)
    → (validate c ≡ none) ↔ (
        (((c.server.transport == "stdio") ≡ true) ⊎ ((c.server.transport == "http") ≡ true))
        × (is_one_of valid_auth_modes c.opcua.auth_mode ≡ true)
        × (is_one_of valid_security_policies c.opcua.security_policy ≡ true)
        × (is_one_of valid_security_modes c.opcua.security_mode ≡ true)
        × (validate_user c.opcua ≡ none))
unfolding validate
validate_lem c = gates_lem _ _ _ _ _ _ _ _ _ _

transport_lem :
    (s : String)
    → (((s == "stdio") ≡ true) ⊎ ((s == "http") ≡ true)) ↔ ((s ≡ "stdio") ⊎ (s ≡ "http"))
transport_lem s = ground (arith, ==_iff s "stdio", ==_iff s "http")

-- A configuration is accepted exactly if its transport, authentication and security are known,
-- a user has a name and a password, and there are a certificate and a key where the authentication
-- or the channel needs them.
pub validate-IsUsable : (c : Config) → (validate c ≡ none) ↔ IsUsable c
validate-IsUsable c = (
  λ accepted.
      let (transport, auth, policy, mode, rest) = (validate_lem c).0 accepted in
      let (user, certified) = (user_lem c.opcua).0 rest in
      record {
        transport = (transport_lem c.server.transport).0 transport;
        auth = (is_one_of_lem valid_auth_modes c.opcua.auth_mode).0 auth;
        policy = (is_one_of_lem valid_security_policies c.opcua.security_policy).0 policy;
        mode = (is_one_of_lem valid_security_modes c.opcua.security_mode).0 mode;
        user = user;
        certificate = (certificate_lem c.opcua).0 certified;
      },
  λ u. (validate_lem c).1 (
    (transport_lem c.server.transport).1 u.transport,
    (is_one_of_lem valid_auth_modes c.opcua.auth_mode).1 u.auth,
    (is_one_of_lem valid_security_policies c.opcua.security_policy).1 u.policy,
    (is_one_of_lem valid_security_modes c.opcua.security_mode).1 u.mode,
    (user_lem c.opcua).1 (u.user, (certificate_lem c.opcua).1 u.certificate),
  ),
)
