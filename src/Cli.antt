-- ===== src/Cli.antt =====
-- main.go: the command lines of `push`, `pop` and `serve`. Arguments are byte strings.
pub mod Number
pub mod Push
pub mod Pop
pub mod Serve
pub mod Connect
pub mod Run
pub mod Paths
pub mod Usage
pub mod Main
mod Tests
