-- ===== src/Corecode.antt =====
-- The rest of corecode: options of the command line, configuration files, numbers and tests of memory.
pub mod Options
pub mod Conf
pub mod Dump
pub mod Zero
pub mod Examples
