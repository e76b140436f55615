-- ===== src/Examples.antt =====
-- examples/c: two programs that use the library, as whole programs on top of its operations.
pub mod MotorWriter
pub mod MotorReader
pub mod Options
pub mod Commands
pub mod Publishing
pub mod Reading
pub mod Shutdown
