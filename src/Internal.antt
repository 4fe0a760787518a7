-- ===== src/Internal.antt =====
-- internal/: the buffer that every type of the library wraps, and its allocator.
pub mod Base
pub mod SecureAlloc
