-- ===== src/Handlers/Started.antt =====
-- A server that was started in read-only mode: internal/config/config.go, SetupTools and the
-- handlers of internal/mcp/server.go, internal/mcp/tool_policy.go, and the client of
-- internal/opcua, put together.
use opcua_mcp.ToolPolicy.{ToolPolicy}
