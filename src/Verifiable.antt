-- ===== src/Verifiable.antt =====
-- The verification of results, verifiable/verifiable.cu: the random words, the inputs of the ranks, the
-- expected output, and the kernels that write and compare them.
pub mod Words
pub mod Shuffle
pub mod SumXy
pub mod Floats
pub mod Kernels
pub mod Integers
pub mod Results
