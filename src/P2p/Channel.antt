-- ===== src/P2p/Channel.antt =====
-- utils/ch.go and the flag of p2p/communication.go: what many goroutines close, once. A value that
-- `Send` hands over is at the end of `sent`; where no one reads, `Send` waits and no step is made.
use conver_go.Base.{
  Bool, List, Option, [], drop, false, get_elem?, if◌then◌else◌, none, some, take, true, ℕ, ◌++◌,
  ◌∷◌,
}

pub record SafeChannel (T : Type 0) : Type 0 where
  pub sent : List T
  pub closed : Bool

unfoldable pub new_safe_channel : {T : Type 0} → SafeChannel T
new_safe_channel = record { sent = []; closed = false }

-- `Send`, which says whether the value was handed over.
unfoldable pub send_value : {T : Type 0} → SafeChannel T → T → SafeChannel T × Bool
send_value s v = if s.closed then (s, false) else (record s { sent = s.sent ++ (v ∷ []) }, true)

unfoldable pub close_channel : {T : Type 0} → SafeChannel T → SafeChannel T
close_channel s = if s.closed then s else record s { closed = true }

-- `ShutDownFlag`; `none` is the error of a second `Close`.
pub record ShutDownFlag : Type 0 where
  pub is_shut_down : Bool

unfoldable pub close_flag : ShutDownFlag → Option ShutDownFlag
close_flag s = if s.is_shut_down then none else some (record { is_shut_down = true })

-- `utils.BroadcastError`: the targets, the position of the one that failed, and why.
pub record BroadcastError (T E : Type 0) : Type 0 where
  pub targets : List T
  pub failed_index : ℕ
  pub cause : E

unfoldable pub failed_target : {T E : Type 0} → BroadcastError T E → Option T
failed_target e = get_elem? e.targets e.failed_index

unfoldable pub not_sent : {T E : Type 0} → BroadcastError T E → List T
not_sent e = drop e.failed_index e.targets

unfoldable pub success_targets : {T E : Type 0} → BroadcastError T E → List T
success_targets e = take e.failed_index e.targets
