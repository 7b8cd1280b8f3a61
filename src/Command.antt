-- ===== src/Command.antt =====
-- The package command: the results of commands and the parser that finds a command.
pub mod Results
pub mod Parser
pub mod Registry
pub mod Loop
mod Tests
