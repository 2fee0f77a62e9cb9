-- ===== src/Io.antt =====
-- The parts of src/io.
pub mod Traits
pub mod BufReader
pub mod BufWriter
