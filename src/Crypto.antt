-- ===== src/Crypto.antt =====
-- uxsp/crypto/: the symmetric cipher, the key exchanges, the signatures and their hybrid. The
-- functions of the packages that they call are records of operations with the laws that are relied on.
-- Arguments have the annotated types, so that the tests of `isinstance` have no counterpart.
pub mod Symmetric
pub mod Kdf
pub mod Asymmetric
pub mod Pqc
pub mod Parts
pub mod Hybrid
