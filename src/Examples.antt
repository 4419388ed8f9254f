-- ===== src/Examples.antt =====
-- Concrete inputs on which the theorems are tried.
mod World
mod Restart
mod Startup
mod Ends
mod Stored
mod Parts
mod Syntax
mod Wire
mod Toml
mod Adapters
mod Console
mod Progress
