-- ===== src/Gin.antt =====
-- The GIN benchmarks of src/device_api/gin: their options and the loop over the message sizes.
pub mod Number
pub mod Options
pub mod Configure
pub mod Sweep
mod Tests
