-- ===== src/CommandLine.antt =====
-- The command line of the tests in src/common.cu.
pub mod Extension
pub mod Numbers
pub mod Names
pub mod Options
pub mod Supported
pub mod Consistent
mod OptionTests
mod Tests
