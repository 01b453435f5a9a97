-- ===== src/Tests.antt =====
-- Runs of the definitions on concrete inputs.
mod Queue
mod Tasks
mod Library
mod Start
mod Chaser
mod Console
mod Cipher
mod System
