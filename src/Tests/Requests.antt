-- ===== src/Tests/Requests.antt =====
-- The theorems on the requests that read and browse, the security of the channel, and the
-- normalization of values.
use opcua_mcp.Prelude.{
  ℕ, suc, ◌+◌, ◌≤◌, String, true, List, [], ◌∷◌, ◌++◌, none, some, length, ◌≡◌, refl, ap, arith,
}
use opcua_mcp.Prelude.Int.{pos}
use opcua_mcp.Prelude.Result.{ok}
use opcua_mcp.Value.{int, string}
use opcua_mcp.Config.{OpcuaConfig}
use opcua_mcp.Requests.{Server, BrowseResult, raw_byte}
use opcua_mcp.Requests.Browse.{
  Listing, CountsRequests, browse, follow, browse-Listing, browse-count,
}
use opcua_mcp.Requests.Read.{
  AnswersAll, read_recovering, read_recovering-length, read, parse_all, read_individually,
}
use opcua_mcp.Requests.Attributes.{over_server, write_node-over_server-Once}
use opcua_mcp.Write.Node.{write_node}
use opcua_mcp.Store.Encoding.{Json}
use opcua_mcp.Security.{
  Outside, Endpoint, ChannelOption, add_channel_security, load_client_key_pair, verify_server_cert,
  endpoint_option, pinned_of, certificate, private_key, security_from_endpoint, anonymous,
  add_channel_security-pinned,
}
use opcua_mcp.Tests.Session.{net, uncounted, live}
use opcua_mcp.Tests.Write.{runtime}

abbrev page : List ℕ → List ℕ → BrowseResult ℕ
page refs point = record { status = 0; references = refs; continuation_point = point }

abbrev values : List ℕ → List ℕ
values [] = []
values (i ∷ is) = 7 ∷ values is

values-length : (is : List ℕ) → length (values is) ≡ length is
values-length [] = refl
values-length (i ∷ is) = ap suc (values-length is)

-- A node is its number; two pages for each; a read of attributes reaches no write.
abbrev server : Server ℕ ℕ ℕ ℕ
server = record {
  parse_node_id = λ s. some 4;
  read = λ k ids w. (ok (values ids), w);
  read_attribute = λ k id a w. (ok (record { status = 0; value = raw_byte 3 } ∷ []), w);
  browse = λ k id w. (ok (page (1 ∷ []) (9 ∷ []) ∷ []), w + 1);
  browse_next = λ k cp w. (ok (page (2 ∷ []) [] ∷ []), w + 1);
  context_error = λ w. none;
  grace_period = λ w. w;
  bad_decoding = 0;
}

browse-Listing_example : Listing server "i=85" live 0 (1 ∷ 2 ∷ []) 2
unfolding browse follow
browse-Listing_example = (browse-Listing server "i=85" live 0 2 (1 ∷ 2 ∷ [])).0 refl

counts_requests : CountsRequests server (λ w. w)
counts_requests = record { browse = λ k id w. refl; next = λ k cp w. refl }

browse-count_example : (browse server "i=85" live 0).1 ≤ 0 + 10001
browse-count_example = browse-count server (λ w. w) counts_requests "i=85" live 0

answers_all : AnswersAll server
answers_all k ids w vs e = ground (arith, values-length ids, e)

abbrev sevens : List ℕ
sevens = 7 ∷ 7 ∷ []

abbrev nodes : List String
nodes = "i=1" ∷ "i=2" ∷ []

read_recovering-length_example : length sevens ≡ length nodes
unfolding read_recovering read parse_all read_individually
read_recovering-length_example =
    read_recovering-length server answers_all net nodes live 0 sevens refl

write_node-over_server-Once_example :
    let o =
      write_node (over_server server net (λ v. true)) net runtime "i=4" (int (pos 5)) live 0 in
    (o.world ≤ 0 + 1) × (o.error ≡ none → o.world ≡ 0 + 1)
write_node-over_server-Once_example =
    write_node-over_server-Once server net (λ v. true) runtime (λ n. n) uncounted (λ k q w. refl)
      (λ k id a w. refl) "i=4" (int (pos 5)) live 0

abbrev json : Json ℕ
json = record { marshal = λ v. ok 1; unmarshal = λ g raw. ok (string ""); no_raw = 0 }

abbrev widen : ℕ → ℕ
widen b = 0

abbrev pinning : OpcuaConfig
pinning = record {
  endpoint = "opc.tcp://plant";
  auth_mode = "anonymous";
  username = "";
  password = "";
  cert_file = "c.pem";
  key_file = "k.pem";
  server_cert = "s.der";
  security_policy = "Basic256Sha256";
  security_mode = "Sign";
  request_timeout = pos 1;
  session_timeout = pos 1;
  max_retries = pos 1;
  retry_delay = pos 1;
}

abbrev endpoint : Endpoint
endpoint = record { endpoint = 3; server_certificate = 8 ∷ [] }

abbrev outside : Outside
outside = record {
  load_key_pair = λ c k. ok (record { leaf = 1 ∷ []; rsa_key = some 2 });
  select_endpoint = λ url policy mode. ok (some endpoint);
  read_file = λ f. ok (8 ∷ []);
  pem_decode = λ bs. none;
  same_thumbprint = λ a b. true;
}

abbrev options : List ChannelOption
options = certificate (1 ∷ []) ∷ private_key 2 ∷ security_from_endpoint endpoint anonymous ∷ []

add_channel_security-pinned_example :
    (ep : Endpoint) × (before : List ChannelOption) × (content : List ℕ) × (outside.select_endpoint
        "opc.tcp://plant" "Basic256Sha256" "Sign"
      ≡ ok (some ep))
    × (options ≡ before ++ endpoint_option outside pinning ep ∷ [])
    × (outside.read_file "s.der" ≡ ok content)
    × (outside.same_thumbprint
          (pinned_of content (outside.pem_decode content))
          ep.server_certificate
        ≡ true)
unfolding add_channel_security load_client_key_pair verify_server_cert
add_channel_security-pinned_example =
    add_channel_security-pinned outside pinning [] options refl refl refl
