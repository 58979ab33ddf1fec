-- ===== src/Tests.antt =====
-- The theorems at concrete inputs.
mod Session
mod Write
mod Node
mod Store
mod Stored
mod Published
mod Subscription
mod Cache
mod Tools
mod Discovery
mod Requests
mod Telemetry
mod Handlers
mod Config
mod Server
mod Command
