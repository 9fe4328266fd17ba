-- ===== src/Func.antt =====
-- The functions of make that src/func.cc implements, on evaluated arguments. Each takes the text `s`
-- that it appends to; a word writer holds `s` while the words are written. `Evaluator::Error` ends
-- the program with a message, here `failed`.
pub mod Texts
pub mod Words
pub mod Names
pub mod Control
