-- ===== src/Net.antt =====
-- What the program uses of Go's packages path and net/url on bytes.
pub mod Path
pub mod Escape
