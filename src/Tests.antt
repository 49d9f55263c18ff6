-- ===== src/Tests.antt =====
-- The theorems at concrete inputs, and runs of the code's functions on them.
mod Routing
mod Services
mod Server
mod Config
mod Sections
