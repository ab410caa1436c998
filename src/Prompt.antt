-- ===== src/Prompt.antt =====
-- internal/agent/prompt: the instruction that a session starts with. Tags finds and replaces the tags
-- reserved for the untrusted parts (sections.go), Build puts the sections together (builder.go,
-- section.go, inputs.go, sections.go); the other files are about the two.
pub mod Tags
pub mod Neutral
pub mod Scan
pub mod Put
pub mod Clean
pub mod Build
pub mod Joined
pub mod Payload
pub mod Render
mod Examples
