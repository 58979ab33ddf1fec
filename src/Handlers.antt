-- ===== src/Handlers.antt =====
-- The handlers of internal/mcp/server.go that do more than pass a call on: the arguments of a tool,
-- the calls of the components, and the answer before it is marshalled.
pub mod Unsubscribe
pub mod BrowseNodes
pub mod Read
pub mod Answer
pub mod Values
pub mod Connection
pub mod Write
pub mod Nodes
pub mod Tools
pub mod Quiet
pub mod ReadOnly
pub mod Unchanged
pub mod OverClient
pub mod Started
