-- ===== src/External.antt =====
-- Code that the repository calls and does not hold: the `ipnet` crate and the kernel's LPM trie.
-- Each is a record of operations with the documented behaviour that the repository relies on.
pub mod Ipnet
pub mod LpmTrie
pub mod LruMap
