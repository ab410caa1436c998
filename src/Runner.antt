-- ===== src/Runner.antt =====
-- internal/infrastructure/containerBasic/runCode.go and container.go: one execution request, from
-- the language's name to the answer. The docker client and the file system are outcomes that a
-- record of the environment holds; what RunCode does to them is a list of effects.
pub mod Language
pub mod Served
pub mod Files
pub mod Exec
pub mod Flow
pub mod Release
pub mod Answer
mod Examples
