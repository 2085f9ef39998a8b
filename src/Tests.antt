-- ===== src/Tests.antt =====
-- Runs of the model of the wire protocol and of the world on concrete values.
mod Wire
mod Streams
mod Field
mod World
mod Sessions
mod Client
mod Server
mod Runtime
