-- ===== src/Tests.antt =====
-- Runs of the definitions on small inputs, and the theorems at concrete values.
mod Ring
mod Frames
mod Connections
mod Sessions
mod Requests
mod Files
mod Conversations
mod Pushers
mod Streams
mod Program
mod Addresses
