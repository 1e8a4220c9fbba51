-- ===== src/Tests.antt =====
-- Runs of the theorems on concrete input.
mod Setup
mod Layout
mod Calls
mod Disk
mod Races
mod Texts
mod Files
mod Requests
mod Blocks
mod Windows
mod WindowsFiles
mod WindowsSession
mod Freed
mod Log
