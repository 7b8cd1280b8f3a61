-- ===== src/Cvrdt/Tests.antt =====
-- Concrete runs of the package cvrdt.
mod Documents
mod Orders
