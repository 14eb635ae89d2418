-- ===== src/Examples.antt =====
-- Tests of the models on concrete inputs, and the theorems applied to them.
mod Environment
mod Printing
mod Modules
mod Sharing
mod Texts
mod Expressions
mod Parameters
mod Records
