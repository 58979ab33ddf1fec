-- ===== src/Telemetry/Middleware.antt =====
-- internal/mcp/telemetry_middleware.go: what the telemetry learns of a tool call.
use opcua_mcp.Prelude.{
  ℕ, String, Bool, false, ◌||◌, List, [], ◌∷◌, Option, none, some, if◌then◌else◌,
}
use Prim.Native.String.{◌++◌ as append}
use opcua_mcp.Prelude.Text.{contains_text}
use opcua_mcp.Telemetry.Aggregator.{Event, tool_call, error, Telemetry, recorded}

abbrev mentions : String → List String → Bool
unfolding contains_text
mentions s [] = false
mentions s (word ∷ words) = contains_text s word || mentions s words

unfoldable pub classify_error_text : (String → String) → String → String
unfolding contains_text
classify_error_text to_lower text =
    let lower = to_lower text in
    if mentions lower ("deadline exceeded" ∷ "timeout" ∷ "timed out" ∷ [])
    then "timeout"
    else if mentions lower ("connection refused" ∷ "no route to host" ∷ "not connected" ∷ [])
    then "connection_refused"
    else if mentions lower ("invalid json" ∷ "expects a" ∷ "data type" ∷ [])
    then "type_mismatch"
    else if mentions lower ("required" ∷ "failed to parse" ∷ "invalid" ∷ [])
    then "invalid_argument"
    else if mentions lower ("not found" ∷ "no results returned" ∷ [])
    then "not_found"
    else if mentions lower
        ("not writable" ∷ "not user writable" ∷ "permission" ∷ "disabled in read-only mode" ∷ [])
    then "permission_denied"
    else if mentions lower ("unavailable" ∷ [])
    then "unavailable"
    else "other"

-- The content of a result: texts, and what is no text.
pub data Content : Type 0 where
  text_content : String → Content
  other_content : Content

pub record ToolResult : Type 0 where
  pub is_error : Bool
  pub content : List Content

unfoldable pub result_text : List Content → String
result_text [] = ""
result_text (text_content s ∷ cs) = append s (result_text cs)
result_text (other_content ∷ cs) = result_text cs

-- What a handler returns: a result, which may be nil, and the text of an error, if there is one.
abbrev pub Answer : Type 0
Answer = Option ToolResult × Option String

-- What `telemetryMiddleware` records of a call.
unfoldable pub events_of : (String → String) → String → ℕ → Answer → List Event
unfolding classify_error_text result_text
events_of to_lower name params (r, some text) =
    tool_call name params ∷ error (classify_error_text to_lower text) ∷ []
events_of to_lower name params (none, none) = tool_call name params ∷ []
events_of to_lower name params (some r, none) =
    if r.is_error
    then tool_call name params ∷ error (classify_error_text to_lower (result_text r.content)) ∷ []
    else tool_call name params ∷ []

unfoldable pub record_all : List Event → Telemetry → Telemetry
unfolding recorded
record_all [] t = t
record_all (e ∷ es) t = record_all es (recorded e t)

-- The middleware around a handler: the answer is the handler's, whatever was recorded.
unfoldable pub telemetry_middleware :
    {W : Type 0}
    → (String → String)
    → (W → Answer × W)
    → String
    → ℕ
    → W
    → Telemetry
    → Answer × W × Telemetry
unfolding events_of record_all
telemetry_middleware to_lower next name params w t =
    let a = next w in (a.0, a.1, record_all (events_of to_lower name params a.0) t)
