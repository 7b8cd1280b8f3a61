-- ===== src/P2p/Transport/Handling/Turns.antt =====
-- The turns of `handlePeer` of p2p/communication.go, and every list of events of a transport.
use conver_go.Base.{text_Eq}
use conver_go.P2p.Message.{info_Eq}
use conver_go.P2p.Transport.Handling.{
  Turn, continued, returned, waits, LayerEvent, accepting, adding,
}
use conver_go.P2p.Transport.Handling.Soundness.{IsSound, FitResult}

-- The layer that a turn gives is sound.
unfoldable TurnSound : {D E : Type 0} → Turn D E → Type 0
TurnSound (continued t) = IsSound t
TurnSound (returned t) = IsSound t
TurnSound waits = Unit {0}

-- What an event brings in from outside: the peers of handshakes, live.
unfoldable pub Fit : {D E : Type 0} → LayerEvent D E → Type 0
Fit (adding target connected) = FitResult connected
Fit (accepting shaken) = FitResult shaken
Fit _ = Unit {0}
