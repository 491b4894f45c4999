-- ===== src/Examples.antt =====
-- Runs of the theorems at concrete inputs.
mod Containers
mod Events
mod Flow
mod Tables
mod Settings
mod Rounds
