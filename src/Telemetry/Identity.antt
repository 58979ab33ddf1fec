-- ===== src/Telemetry/Identity.antt =====
-- `LoadConfig` of internal/telemetry/config.go: the flush interval, and the anonymous identifier
-- with the file that keeps it.
use opcua_mcp.Prelude.{
  ◌*◌, String, Bool, false, List, [], ◌∷◌, Option, none, some, if◌then◌else◌, ◌≡◌, refl, sym, ap,
  ◌∙◌, Bool-cases, ◌⊎◌, inl, inr, Option-cases,
}
use opcua_mcp.Prelude.Int.{ℤ, pos, lez}
use opcua_mcp.Prelude.Text.{is_empty, trim_space}
use opcua_mcp.Prelude.Result.{Result, ok, err}
use opcua_mcp.Session.{Error}
use opcua_mcp.Telemetry.{resolve_enabled}

-- The environment (an unset variable is the empty text to os.Getenv), paths, files and uuids. `W` is
-- the file system and the source of randomness.
pub record Host (W : Type 0) : Type 0 where
  pub to_lower : String → String
  pub do_not_track : Option String
  pub telemetry : Option String
  pub flush_interval : String
  pub config_home : String
  pub home_dir : Result Error String
  pub join : List String → String
  pub dir : String → String
  pub parse_duration : String → Result Error ℤ
  pub parse_uuid : String → Option String
  pub new_uuid : W → String × W
  pub read_file : String → W → Result Error String
  pub make_dir : String → W → Option Error × W
  pub write_file : String → String → W → Option Error × W

-- The fields that `LoadConfig` sets.
pub record Loaded : Type 0 where
  pub enabled : Bool
  pub flush_interval : ℤ
  pub anon_id : String

abbrev pub default_flush_interval : ℤ
default_flush_interval = pos (600 * 1000000000)

abbrev pub positive_or_default : Result Error ℤ → ℤ
positive_or_default (err e) = default_flush_interval
positive_or_default (ok d) = if lez d (pos 0) then default_flush_interval else d

module _ {W : Type 0} (h : Host W) where
  unfoldable pub resolve_flush_interval : ℤ
  resolve_flush_interval =
      if is_empty h.flush_interval
      then default_flush_interval
      else positive_or_default (h.parse_duration h.flush_interval)

  abbrev pub base_of : Result Error String → Option String
  base_of (err e) = none
  base_of (ok home) = some (h.join (home ∷ ".config" ∷ []))

  unfoldable pub anon_id_path : Option String
  anon_id_path = elim (if is_empty h.config_home then base_of h.home_dir else some h.config_home) [
    | none ↦ none
    | some base ↦ some (h.join (base ∷ "opcua-mcp" ∷ "telemetry_id" ∷ []))
  ]

  abbrev pub id_of : Result Error String → Option String
  id_of (err e) = none
  id_of (ok content) = h.parse_uuid (trim_space content)

  -- The identifier that a file keeps.
  abbrev pub stored_id : String → W → Option String
  stored_id path w = id_of (h.read_file path w)

  -- The file is not written where its directory cannot be made; the errors are only logged.
  abbrev pub written_in : String → String → Option Error × W → W
  written_in path id (some e, w) = w
  written_in path id (none, w) = (h.write_file path id w).1

  abbrev pub persisted : String → String × W → String × W
  persisted path (id, w) = (id, written_in path id (h.make_dir (h.dir path) w))

  abbrev pub loaded_or_new : String → Option String → W → String × W
  loaded_or_new path (some id) w = (id, w)
  loaded_or_new path none w = persisted path (h.new_uuid w)

  abbrev pub id_at : Option String → W → String × W
  id_at none w = h.new_uuid w
  id_at (some path) w = loaded_or_new path (stored_id path w) w

  unfoldable pub resolve_anon_id : W → String × W
  unfolding anon_id_path
  resolve_anon_id w = id_at anon_id_path w

  unfoldable pub load_config : W → Loaded × W
  unfolding resolve_enabled resolve_flush_interval resolve_anon_id
  load_config w =
      let (id, w') = resolve_anon_id w in
      (
        record {
          enabled = resolve_enabled h.to_lower h.do_not_track h.telemetry;
          flush_interval = resolve_flush_interval;
          anon_id = id;
        },
        w',
      )

  -- What is relied on of files and uuids: a written text is read back, and the text of a new uuid
  -- is that of a uuid.
  pub record HostLaws : Type 0 where
    pub read_written :
        (path text : String) (w : W)
        → (h.write_file path text w).0 ≡ none
        → h.read_file path (h.write_file path text w).1 ≡ ok text
    pub parse_new : (w : W) → h.parse_uuid (trim_space (h.new_uuid w).0) ≡ some (h.new_uuid w).0

  -- The identifier is in the file, or the file and its directory can be written.
  abbrev pub IsKept : String → W → Type 0
  IsKept path w =
      let (id, w1) = h.new_uuid w in
      let (made, w2) = h.make_dir (h.dir path) w1 in
      ((s : String) × (stored_id path w ≡ some s))
      ⊎ ((made ≡ none) × ((h.write_file path id w2).0 ≡ none))

  positive_or_default-positive : (r : Result Error ℤ) → lez (positive_or_default r) (pos 0) ≡ false
  positive_or_default-positive (err e) = refl
  positive_or_default-positive (ok d) = elim (Bool-cases (lez d (pos 0))) [
    | inl p ↦ rw p refl
    | inr p ↦ rw p p
  ]

  resolve_flush_interval-positive : lez resolve_flush_interval (pos 0) ≡ false
  unfolding resolve_flush_interval
  resolve_flush_interval-positive = elim (Bool-cases (is_empty h.flush_interval)) [
    | inl p ↦ rw (resolve_flush_interval, p) refl
    | inr p ↦
        rw (resolve_flush_interval, p)
          (positive_or_default-positive (h.parse_duration h.flush_interval))
  ]

  loaded_again :
      (path id : String) (w : W)
      → stored_id path w ≡ some id
      → loaded_or_new path (stored_id path w) w ≡ (id, w)
  loaded_again path id w p = ap (λ o. loaded_or_new path o w) p

  stored_persisted :
      HostLaws
      → (path : String) (w : W) → (h.make_dir (h.dir path) (h.new_uuid w).1).0 ≡ none
      → (h.write_file path (h.new_uuid w).0 (h.make_dir (h.dir path) (h.new_uuid w).1).1).0 ≡ none
      → stored_id path (persisted path (h.new_uuid w)).1 ≡ some (h.new_uuid w).0
  stored_persisted laws path w made written =
      let id = (h.new_uuid w).0 in
      let m = h.make_dir (h.dir path) (h.new_uuid w).1 in
      ap (λ o. stored_id path (written_in path id (o, m.1))) made
      ∙ ap id_of (laws.read_written path id m.1 written)
      ∙ laws.parse_new w

  id_at-again :
      HostLaws
      → (path : String) (w : W) → IsKept path w
      → id_at (some path) (id_at (some path) w).1 ≡ id_at (some path) w
  id_at-again laws path w (inl (s, p)) = rw (loaded_again path s w p) (loaded_again path s w p)
  id_at-again laws path w (inr (made, written)) = elim (Option-cases (stored_id path w)) [
    | inr (s, p) ↦ rw (loaded_again path s w p) (loaded_again path s w p)
    | inl p ↦ rw (ap (λ o. loaded_or_new path o w) p) (
        loaded_again path (h.new_uuid w).0 (persisted path (h.new_uuid w)).1
          (stored_persisted laws path w made written))
  ]

  -- The flush interval is positive, whatever the environment says, and a second start in the same
  -- environment loads the same configuration, the anonymous identifier included, and writes nothing.
  -- (The hypotheses: there is a path for the identifier, which is in the file already or can be
  -- written there; a written text is read back, and a new uuid is parsed to itself.)
  pub load_config-again :
      HostLaws
      → (path : String) → anon_id_path ≡ some path
      → (w : W) → IsKept path w
      → (lez (load_config w).0.flush_interval (pos 0) ≡ false)
        × (load_config (load_config w).1 ≡ load_config w)
  unfolding load_config resolve_anon_id
  load_config-again laws path found w kept =
      let same : resolve_anon_id (resolve_anon_id w).1 ≡ resolve_anon_id w =
        ap (λ o. id_at o (id_at o w).1) found
        ∙ id_at-again laws path w kept
        ∙ ap (λ o. id_at o w) (sym found) in
      (
        resolve_flush_interval-positive,
        ap
            (λ x. (
              record {
                enabled = resolve_enabled h.to_lower h.do_not_track h.telemetry;
                flush_interval = resolve_flush_interval;
                anon_id = x.0;
              },
              x.1,
            ))
            same,
      )
