-- ===== src/Limits.antt =====
-- What bounds the bytes that the API keeps: the log of a CI job (ci/log-sink.ts) and the cache of
-- derived data (fhr/byte-cache.ts), under apps/api/src.
pub mod LogSink
pub mod ByteCache
pub mod Tests
