-- ===== src/Trace.antt =====
-- include/comparch/trace.hpp and src/common/trace.cpp: the trace files, as lists of bytes.
pub mod Bytes
pub mod Format
pub mod RoundTrip
pub mod Lengths
pub mod Reader
pub mod Writer
mod Tests
