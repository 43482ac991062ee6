-- ===== src/ValueStream.antt =====
-- src/value_stream.rs: the transfer of one large value as a sequence of chunks.
-- Producer is the sink that cuts the value's bytes and the thread that drives it, Session the
-- server's tables and handlers, Client the pull loop, Trailer the writer that holds a digest back.
pub mod Producer
pub mod Session
pub mod Client
pub mod Trailer
pub mod Reader
