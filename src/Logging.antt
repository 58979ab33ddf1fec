-- ===== src/Logging.antt =====
-- internal/logger/logger.go: the level, the output and the format of the logger that `New` builds.
-- log/slog writes the records. `to_lower` and `equal_fold` are those of strings, `open_file` is
-- os.OpenFile.
use opcua_mcp.Prelude.{
  String, Bool, true, false, not, ◌&&◌, ◌||◌, Option, none, some, ◌==◌, string_eq, if◌then◌else◌,
  ◌≡◌, ◌↔◌, refl, ap, arith, Bool-cases, inl, inr,
}
use opcua_mcp.Prelude.Text.{is_empty}
use opcua_mcp.Prelude.Result.{Result, ok, err}
use opcua_mcp.Session.{Error}
use opcua_mcp.Config.{ServerConfig}

pub data Level : Type 0 where
  debug info warn error : Level

pub data Output : Type 0 where
  stdout stderr : Output
  file : String → Output

pub data Format : Type 0 where
  text_format json_format : Format

pub record Logger : Type 0 where
  pub level : Level
  pub output : Output
  pub format : Format
  pub add_source : Bool
  -- the warning that is logged at the start, if it is not empty
  pub warning : String

abbrev pub log_level_of : String → Level
log_level_of s =
    if s == "debug"
    then debug
    else if s == "info"
    then info
    else if s == "warn" || s == "warning"
    then warn
    else if s == "error"
    then error
    else info

abbrev pub format_of : String → Format
format_of s = if s == "text" then text_format else json_format

abbrev pub stdout_warning : String
stdout_warning =
    "SERVER_LOG_OUTPUT=stdout is ignored in stdio transport mode; logging to stderr to protect the JSON-RPC stream"

module _ (to_lower : String → String) (equal_fold : String → String → Bool) where
  -- The effective output and the warning.
  unfoldable pub resolve_log_output : String → String → Bool → String × String
  resolve_log_output transport configured explicit =
      if equal_fold transport "stdio" && equal_fold configured "stdout"
      then (if explicit then ("stderr", stdout_warning) else ("stderr", ""))
      else (configured, "")

  abbrev pub is_stdout : Option String → Bool
  is_stdout none = false
  is_stdout (some v) = equal_fold v "stdout"

  resolve_forced :
      (transport configured : String) (explicit : Bool)
      → equal_fold transport "stdio" ≡ true
      → equal_fold configured "stdout" ≡ true
      → (resolve_log_output transport configured explicit).0 ≡ "stderr"
  unfolding resolve_log_output
  resolve_forced transport configured explicit p q = ground (arith, p, q)

  resolve_other :
      (transport configured : String) (explicit : Bool)
      → equal_fold configured "stdout" ≡ false
      → (resolve_log_output transport configured explicit).0 ≡ configured
  unfolding resolve_log_output
  resolve_other transport configured explicit p = ground (arith, p)

  module _ (open_file : String → Option Error) where
    abbrev pub opened : String → Option Error → Result Error Output
    opened name none = ok (file name)
    opened name (some e) = err e

    -- The switch on the effective output.
    unfoldable pub output_of : String → String → Result Error Output
    output_of effective log_file =
        if effective == "stderr"
        then ok stderr
        else if effective == "file"
        then (if is_empty log_file then ok stdout else opened log_file (open_file log_file))
        else ok stdout

    abbrev pub built : ServerConfig → String → Result Error Output → Result Error Logger
    built cfg warning (err e) = err e
    built cfg warning (ok out) = ok (record {
      level = log_level_of (to_lower cfg.log_level);
      output = out;
      format = format_of (to_lower cfg.log_format);
      add_source = cfg.log_add_source;
      warning = warning;
    })

    -- `env` is the value of SERVER_LOG_OUTPUT, if it is set.
    unfoldable pub new_logger : Option String → ServerConfig → Result Error Logger
    unfolding resolve_log_output output_of
    new_logger env cfg =
        let r = resolve_log_output cfg.transport cfg.log_output (is_stdout env) in
        built cfg r.1 (output_of (to_lower r.0) cfg.log_file)

    -- A logger is built that writes to standard output.
    abbrev pub WritesStdout : Result Error Logger → Type 0
    WritesStdout (err e) = ⊥
    WritesStdout (ok l) = l.output ≡ stdout

    -- The configured output names standard output to the switch: it is neither stderr nor a file
    -- with a name.
    abbrev pub falls_to_stdout : ServerConfig → Bool
    falls_to_stdout cfg =
        not (to_lower cfg.log_output == "stderr")
        && (not (to_lower cfg.log_output == "file") || is_empty cfg.log_file)

    output_of-stdout :
        (cfg : ServerConfig) (warning effective : String)
        → WritesStdout (built cfg warning (output_of effective cfg.log_file)) ↔ (
            (not (effective == "stderr") && (not (effective == "file") || is_empty cfg.log_file))
            ≡ true)
    unfolding output_of
    output_of-stdout cfg warning effective = elim (Bool-cases (effective == "stderr")) [
      | inl s ↦ rw (output_of, s) (ground arith)
      | inr s ↦ elim (Bool-cases (effective == "file")) [
        | inr f ↦ rw (output_of, s, f) (ground arith)
        | inl f ↦ elim (Bool-cases (is_empty cfg.log_file)) [
          | inl e ↦ rw (output_of, s, f, e) (ground arith)
          | inr e ↦ rw (output_of, s, f, e) (ground arith)
        ]
      ]
    ]

    -- With the stdio transport, whose standard output carries the protocol, the logger writes to
    -- standard output exactly if the configured output is not spelled stdout, but falls to it: a
    -- text that names no output, or a file without a name. (The hypothesis: lower case leaves
    -- "stderr" alone.)
    pub new_logger-stdout :
        to_lower "stderr" ≡ "stderr"
        → (env : Option String) (cfg : ServerConfig) → equal_fold cfg.transport "stdio" ≡ true
        → WritesStdout (new_logger env cfg)
          ↔ ((equal_fold cfg.log_output "stdout" ≡ false) × (falls_to_stdout cfg ≡ true))
    unfolding new_logger resolve_log_output
    new_logger-stdout lower env cfg stdio =
        let r = resolve_log_output cfg.transport cfg.log_output (is_stdout env) in
        let written = output_of-stdout cfg r.1 (to_lower r.0) in
        elim (Bool-cases (equal_fold cfg.log_output "stdout")) [
          | inl named ↦
              let forced : (to_lower r.0 == "stderr") ≡ true =
                rw (resolve_forced cfg.transport cfg.log_output (is_stdout env) stdio named, lower)
                  refl in
              ground (arith, written, forced, named)
          | inr other ↦
              let same : to_lower r.0 ≡ to_lower cfg.log_output =
                ap to_lower (resolve_other cfg.transport cfg.log_output (is_stdout env) other) in
              ground
                (arith, written, other, ap (λ e. e == "stderr") same, ap (λ e. e == "file") same)
        ]
