-- ===== src/Tests.antt =====
-- The theorems at concrete inputs, one module for each part of the program.
mod Gpf
mod Container
mod Logger
mod Lockout
mod Solve
mod Arrango
mod Text
mod Changes
mod Plans
mod Formats
mod Runner
