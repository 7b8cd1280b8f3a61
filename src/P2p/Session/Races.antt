-- ===== src/P2p/Session/Races.antt =====
-- The two halves of `dispatchMessage` in p2p/session.go, with another goroutine between them.
use conver_go.P2p.Session.{Session}
