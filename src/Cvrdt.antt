-- ===== src/Cvrdt.antt =====
-- The replicated data type of cvrdt/: clocks, identifiers, operations, the character sequence, a
-- site and the state that peers exchange.
pub mod Clock
pub mod Character
pub mod Sequence
pub mod Operation
pub mod Site
pub mod State
mod Tests
