-- ===== src/Tests.antt =====
-- Concrete runs of the models: the requests of src/server.rs, frames, statements and row writes.
mod Fixtures
mod ServerRuns
mod SessionRuns
mod Frames
mod Shells
mod Statements
mod Writes
mod Replies
mod RedisRuns
mod Targets
mod MemoryRuns
mod RedisServer
