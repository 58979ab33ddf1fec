-- ===== src/Write.antt =====
-- Writing a value to a node: `Write` of internal/opcua/client.go, from the dynamic value of a tool
-- call through validation and conversion to the request.
pub mod Runtime
pub mod Cast
pub mod Parse
pub mod NodeType
pub mod Validate
pub mod Convert
pub mod Node
