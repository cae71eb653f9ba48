-- ===== src/Bench/Events.antt =====
-- What the events of `BenchTime` of src/common.cu time.
