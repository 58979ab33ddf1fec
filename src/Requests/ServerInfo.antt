-- ===== src/Requests/ServerInfo.antt =====
-- `GetServerInfo` of internal/opcua/client.go: the server's status, which the decoded value holds
-- as a struct of gopcua or in a map of maps.
use opcua_mcp.Prelude.{
  ℕ, String, Bool, List, [], ◌∷◌, Option, none, some, nat_beq, ◌==◌, string_eq, if◌then◌else◌, ◌≡◌,
  refl, Option-cases, inl, inr,
}
use opcua_mcp.Prelude.Int.{ℤ}
use opcua_mcp.Prelude.Result.{Result, ok, err}
use opcua_mcp.Session.{Error, message, wrap}

-- The zero time is `none`.
pub record BuildInfo : Type 0 where
  pub product_uri : String
  pub manufacturer_name : String
  pub product_name : String
  pub software_version : String
  pub build_number : String
  pub build_date : Option ℤ

pub record ServerStatus : Type 0 where
  pub start_time : Option ℤ
  pub current_time : Option ℤ
  pub state : ℕ  -- uint32
  pub build_info : Option BuildInfo

-- A value of an `interface{}`, by what the type assertions find.
mutual
  pub data Dynamic : Type 0 where
    status_struct : ServerStatus → Dynamic
    of_map : Entries → Dynamic
    of_time : Option ℤ → Dynamic
    of_uint32 : ℕ → Dynamic
    of_string : String → Dynamic
    of_other : Dynamic

  -- A map[string]interface{}.
  pub data Entries : Type 0 where
    no_entries : Entries
    entry : String → Dynamic → Entries → Entries

-- `m[key]`, nil (another value) where the key is missing.
unfoldable pub get : String → Entries → Dynamic
get key no_entries = of_other
get key (entry k v m) = let rest = get key m in if k == key then v else rest

abbrev pub as_time : Dynamic → Option ℤ
as_time (of_time t) = t
as_time other = none

abbrev pub as_uint32 : Dynamic → ℕ
as_uint32 (of_uint32 n) = n
as_uint32 other = 0

abbrev pub as_string : Dynamic → String
as_string (of_string s) = s
as_string other = ""

abbrev pub as_map : Dynamic → Option Entries
as_map (of_map m) = some m
as_map other = none

abbrev pub extract_time : Entries → String → Option ℤ
unfolding get
extract_time m key = as_time (get key m)

abbrev pub extract_uint32 : Entries → String → ℕ
unfolding get
extract_uint32 m key = as_uint32 (get key m)

abbrev pub extract_string : Entries → String → String
unfolding get
extract_string m key = as_string (get key m)

abbrev build_info_of : Option Entries → Option BuildInfo
unfolding get
build_info_of none = none
build_info_of (some m) = some (record {
  product_uri = extract_string m "ProductURI";
  manufacturer_name = extract_string m "ManufacturerName";
  product_name = extract_string m "ProductName";
  software_version = extract_string m "SoftwareVersion";
  build_number = extract_string m "BuildNumber";
  build_date = extract_time m "BuildDate";
})

unfoldable pub extract_build_info : Entries → Option BuildInfo
unfolding get
extract_build_info m = build_info_of (as_map (get "BuildInfo" m))

abbrev status_of : Option Entries → Result Error ServerStatus
unfolding get extract_build_info
status_of none = err (message "invalid server status structure")
status_of (some m) = ok (record {
  start_time = extract_time m "StartTime";
  current_time = extract_time m "CurrentTime";
  state = extract_uint32 m "State";
  build_info = extract_build_info m;
})

unfoldable pub extract_server_status : Dynamic → Result Error ServerStatus
unfolding get extract_build_info
extract_server_status (status_struct s) = ok s
extract_server_status (of_map m) = status_of (as_map (get "Value" m))
extract_server_status other = err (message "unexpected value type")

-- `V` are the values of `Read`, with their status and what the assertions find in them.
module _ {W V : Type 0} (is_connected : W → Bool)
    (read : List String → W → Result Error (List V) × W) (status : V → ℕ)
    (dynamic : V → Dynamic) where
  unfoldable pub first_status : Result Error (List V) × W → Result Error ServerStatus × W
  unfolding extract_server_status
  first_status (err e, w) = (err (wrap "failed to read server status" e), w)
  first_status (ok [], w) = (err (message "no results returned"), w)
  first_status (ok (v ∷ vs), w) =
      if nat_beq (status v) 0
      then (extract_server_status (dynamic v), w)
      else (err (message "read server status failed"), w)

  unfoldable pub get_server_info : W → Result Error ServerStatus × W
  unfolding first_status
  get_server_info w =
      if is_connected w
      then first_status (read ("i=2256" ∷ []) w)
      else (err (message "client is not connected"), w)

-- A status as the map of maps that stands for it.
abbrev pub build_info_map : BuildInfo → Entries
build_info_map b = entry "ProductURI" (of_string b.product_uri) (
    entry "ManufacturerName" (of_string b.manufacturer_name) (
      entry "ProductName" (of_string b.product_name) (
        entry "SoftwareVersion" (of_string b.software_version) (
          entry "BuildNumber" (of_string b.build_number)
            (entry "BuildDate" (of_time b.build_date) no_entries)))))

abbrev pub with_build_info : Option BuildInfo → Entries
with_build_info none = no_entries
with_build_info (some b) = entry "BuildInfo" (of_map (build_info_map b)) no_entries

abbrev pub status_map : ServerStatus → Dynamic
status_map s = of_map (
    entry "Value"
      (of_map (
        entry "StartTime" (of_time s.start_time) (
          entry "CurrentTime" (of_time s.current_time)
            (entry "State" (of_uint32 s.state) (with_build_info s.build_info)))))
      no_entries)

-- A status comes out of its map of maps as it was, with its build information or without.
extract_server_status-status_map : (s : ServerStatus) → extract_server_status (status_map s) ≡ ok s
unfolding extract_server_status get extract_build_info
extract_server_status-status_map s = elim (Option-cases s.build_info) [
  | inl p ↦ rw p refl
  | inr (b, p) ↦ rw p refl
]
