-- ===== src/Strutil.antt =====
-- src/strutil.h and src/strutil.cc, one module for each family of functions.
pub mod Words
pub mod Pattern
pub mod Trim
pub mod Path
pub mod Escape
pub mod Paren
pub mod Normalize
pub mod Breaks
