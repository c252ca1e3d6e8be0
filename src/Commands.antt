-- ===== src/Commands.antt =====
-- The commands of AVS/cmd: which configuration they run with, and what they do in turn.
pub mod Aggregating
pub mod Serving
pub mod Operating
pub mod Performing
