-- ===== src/Dep.antt =====
-- src/dep.cc: the rules by which a target is made.
pub mod Trie
pub mod Merge
pub mod Populate
pub mod Plan
