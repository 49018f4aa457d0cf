-- ===== src/Tests.antt =====
-- Runs on concrete inputs, and the theorems at such inputs.
mod Wire
mod Engine
mod WorldGen
mod Lobby
mod Sender
mod Client
mod Config
mod Match
mod Input
mod Sorting
