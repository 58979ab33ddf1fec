-- ===== src/Security.antt =====
-- internal/opcua/security.go: the options of a signed or encrypted channel, and the pinned server
-- certificate. Files, PEM, X.509, the thumbprints and the endpoints of the server are parameters.
use opcua_mcp.Prelude.{
  ℕ, String, Bool, true, false, not, ◌||◌, List, [], ◌∷◌, ◌++◌, Option, none, some, ◌==◌, string_eq,
  if◌then◌else◌, ◌≡◌, refl, sym, ap, ◌∙◌, arith,
}
use opcua_mcp.Prelude.Text.{is_empty}
use opcua_mcp.Prelude.Result.{Result, ok, err, ◌>>=◌, >>=-eq-ok, guard, ok_inj}
use opcua_mcp.Config.{OpcuaConfig}

pub data Error : Type 0 where
  files_required no_rsa_key no_endpoint certificate_mismatch : Error
  external : ℕ → Error

pub data TokenType : Type 0 where
  user_name certificate_token anonymous : TokenType

-- An endpoint, by a number, with its certificate.
pub record Endpoint : Type 0 where
  pub endpoint : ℕ
  pub server_certificate : List ℕ

-- The options for gopcua: the client's certificate and key, and the choice of an endpoint.
pub data ChannelOption : Type 0 where
  certificate : List ℕ → ChannelOption
  private_key : ℕ → ChannelOption
  security_from_endpoint : Endpoint → TokenType → ChannelOption
  -- the options that were there before, by a number
  earlier : ℕ → ChannelOption

-- A loaded pair: the first certificate, and its key if that is an RSA key.
pub record KeyPair : Type 0 where
  pub leaf : List ℕ
  pub rsa_key : Option ℕ

-- tls.LoadX509KeyPair, opcua.GetEndpoints with opcua.SelectEndpoint (`none` for a nil endpoint),
-- os.ReadFile, pem.Decode (the bytes of the block) and uapolicy.Thumbprint.
pub record Outside : Type 0 where
  pub load_key_pair : String → String → Result Error KeyPair
  pub select_endpoint : String → String → String → Result Error (Option Endpoint)
  pub read_file : String → Result Error (List ℕ)
  pub pem_decode : List ℕ → Option (List ℕ)
  -- bytes.Equal of the thumbprints of two certificates
  pub same_thumbprint : List ℕ → List ℕ → Bool

abbrev pub secure_channel_enabled : OpcuaConfig → Bool
secure_channel_enabled cfg =
    not (cfg.security_policy == "None") || not (cfg.security_mode == "None")

abbrev pub user_token_type : String → TokenType
user_token_type mode =
    if mode == "username"
    then user_name
    else if mode == "certificate"
    then certificate_token
    else anonymous

abbrev pub pinned_of : List ℕ → Option (List ℕ) → List ℕ
pinned_of content none = content
pinned_of content (some block) = block

abbrev pub found_endpoint : Option Endpoint → Result Error Endpoint
found_endpoint none = err no_endpoint
found_endpoint (some ep) = ok ep

guard-true : (b : Bool) {x : Unit {0}} → guard b certificate_mismatch ≡ ok x → b ≡ true
guard-true true h = refl
guard-true false h = ground (arith, h)

pin_given : (b : Bool) (m : Result Error (Unit {0})) → b ≡ false → (if b then ok tt else m) ≡ m
pin_given true m h = ground (arith, h)
pin_given false m h = refl

module _ (out : Outside) where
  abbrev with_key : KeyPair → Result Error (List ChannelOption)
  with_key pair = elim pair.rsa_key [
    | none ↦ err no_rsa_key
    | some key ↦ ok (certificate pair.leaf ∷ private_key key ∷ [])
  ]

  -- The options for the client's certificate and key.
  unfoldable pub load_client_key_pair : String → String → Result Error (List ChannelOption)
  load_client_key_pair cert_file key_file =
      if is_empty cert_file || is_empty key_file
      then err files_required
      else out.load_key_pair cert_file key_file >>= with_key

  abbrev compare_certificate : List ℕ → List ℕ → Result Error (Unit {0})
  compare_certificate endpoint_cert content =
      guard (out.same_thumbprint (pinned_of content (out.pem_decode content)) endpoint_cert)
        certificate_mismatch

  unfoldable pub verify_server_cert : String → List ℕ → Result Error (Unit {0})
  verify_server_cert pinned_file endpoint_cert =
      out.read_file pinned_file >>= compare_certificate endpoint_cert

  -- The certificate mode has added the certificate and the key before.
  abbrev pub client_options : OpcuaConfig → Result Error (List ChannelOption)
  unfolding load_client_key_pair
  client_options cfg =
      if cfg.auth_mode == "certificate"
      then ok []
      else load_client_key_pair cfg.cert_file cfg.key_file

  abbrev pub pin : OpcuaConfig → Endpoint → Result Error (Unit {0})
  pin cfg ep =
      if is_empty cfg.server_cert
      then ok tt
      else verify_server_cert cfg.server_cert ep.server_certificate

  abbrev pub endpoint_option : OpcuaConfig → Endpoint → ChannelOption
  endpoint_option cfg ep = security_from_endpoint ep (user_token_type cfg.auth_mode)

  abbrev pinned : OpcuaConfig → List ChannelOption → Endpoint → Result Error (List ChannelOption)
  pinned cfg opts ep = pin cfg ep >>= (λ fine. ok (opts ++ endpoint_option cfg ep ∷ []))

  abbrev selected :
      OpcuaConfig → List ChannelOption → Option Endpoint → Result Error (List ChannelOption)
  selected cfg opts ep = found_endpoint ep >>= pinned cfg opts

  abbrev secured :
      OpcuaConfig → List ChannelOption → List ChannelOption → Result Error (List ChannelOption)
  secured cfg opts own =
      out.select_endpoint cfg.endpoint cfg.security_policy cfg.security_mode
      >>= selected cfg (opts ++ own)

  unfoldable pub add_channel_security :
      OpcuaConfig → List ChannelOption → Result Error (List ChannelOption)
  unfolding load_client_key_pair verify_server_cert
  add_channel_security cfg opts =
      if secure_channel_enabled cfg then client_options cfg >>= secured cfg opts else ok opts

  verify_server_cert-same :
      (file : String) (cert : List ℕ) (x : Unit {0})
      → verify_server_cert file cert ≡ ok x
      → (content : List ℕ) × (out.read_file file ≡ ok content)
        × (out.same_thumbprint (pinned_of content (out.pem_decode content)) cert ≡ true)
  unfolding verify_server_cert
  verify_server_cert-same file cert x e =
      let (content, read, compared) = >>=-eq-ok (out.read_file file) (compare_certificate cert) e in
      (content, read, guard-true _ compared)

  found_endpoint-eq-ok :
      (found : Option Endpoint) (ep : Endpoint) → found_endpoint found ≡ ok ep → found ≡ some ep
  found_endpoint-eq-ok none ep e = ground (arith, e)
  found_endpoint-eq-ok (some x) ep e = ap some (ok_inj e)

  -- Where a server certificate is pinned, the options of a secure channel are given only if an
  -- endpoint is selected for the configured policy and mode, the last option is of that endpoint,
  -- and its certificate has the thumbprint of the pinned file.
  pub add_channel_security-pinned :
      (cfg : OpcuaConfig) (opts opts' : List ChannelOption)
      → secure_channel_enabled cfg ≡ true
      → is_empty cfg.server_cert ≡ false
      → add_channel_security cfg opts ≡ ok opts'
      → (ep : Endpoint) × (before : List ChannelOption) × (content : List ℕ) × (out.select_endpoint
            cfg.endpoint cfg.security_policy cfg.security_mode
          ≡ ok (some ep))
        × (opts' ≡ before ++ endpoint_option cfg ep ∷ [])
        × (out.read_file cfg.server_cert ≡ ok content)
        × (out.same_thumbprint (pinned_of content (out.pem_decode content)) ep.server_certificate
            ≡ true)
  unfolding add_channel_security
  add_channel_security-pinned cfg opts opts' secure given e =
      let (own, p, e1) = >>=-eq-ok (client_options cfg) (secured cfg opts) (rw secure at e) in
      let (found, q, e2) =
        >>=-eq-ok (out.select_endpoint cfg.endpoint cfg.security_policy cfg.security_mode)
          (selected cfg (opts ++ own)) e1 in
      let (ep, r, e3) = >>=-eq-ok (found_endpoint found) (pinned cfg (opts ++ own)) e2 in
      let (x, s, e4) =
        >>=-eq-ok (pin cfg ep) (λ fine. ok ((opts ++ own) ++ endpoint_option cfg ep ∷ [])) e3 in
      let (content, t, u) =
        verify_server_cert-same cfg.server_cert ep.server_certificate x
          (sym (pin_given (is_empty cfg.server_cert) _ given) ∙ s) in
      (ep, opts ++ own, content, q ∙ ap ok (found_endpoint-eq-ok found ep r), sym (ok_inj e4), t, u)
