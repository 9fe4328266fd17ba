-- ===== src/Examples.antt =====
-- The theorems at concrete inputs, and runs of the definitions on inputs of src/strutil_test.cc.
mod Strutil
mod Func
mod Dep
mod Eval
mod Expr
mod Find
mod Plan
mod Ninja
mod Parser
