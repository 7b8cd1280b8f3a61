-- ===== src/P2p/Peer/Reading.antt =====
-- The read loop of p2p/peer.go: the framing of a connection and the receive session of its peer.
use conver_go.Base.{
  All, Bool, List, Outcome, Text, [], ap, arith, err, false, fst, get_elem?, get_elem?-set_self,
  length, length-append, lt-length, ltb, none, ok, out_of_fuel, refl, ret, ret_inj, set, some,
  subst, suc, sym, text_Eq, true, zero, ℕ, ◌++◌, ◌+◌, ◌<◌, ◌>>=◌, ◌∙◌, ◌∷◌, ◌≡◌, ◌≤◌,
}
use conver_go.P2p.Stream.{
  ByteStreamProcessor, StreamError, read_full, receive_byte_from_stream, send_byte_on_stream,
  stream_end,
}
use conver_go.P2p.Stream.Framing.{receive-send_byte_on_stream}
use conver_go.P2p.Peer.{
  RecvSession, TcpPeer, deliver_message, delivered, handle_read_error, message_capacity,
  send_message, waiting,
}
use conver_go.P2p.Peer.Channels.{shut}
use conver_go.P2p.Peer.Runs.{broken, broken_peer, read_error-broken, reported}

-- `readLoop` over what is left on the connection, with no other step between; the Boolean says that it
-- waits for a reader of a full channel. A turn takes a header off the connection or ends the loop.
unfoldable pub read_loop :
    ℕ → ByteStreamProcessor → List ℕ → TcpPeer StreamError → Outcome (TcpPeer StreamError × Bool)
read_loop zero proc stream p = out_of_fuel
read_loop (suc fuel) proc stream p = receive_byte_from_stream proc stream >>= λ received.
    elim received [
      | err e ↦ handle_read_error e p >>= λ p'. ret (p', false)
      | ok (msg, rest) ↦ deliver_message msg p >>= λ (p', d). elim d [
        | waiting ↦ ret (p', true)
        | _ ↦ read_loop fuel proc rest p'
      ]
    ]

-- What a connection that takes every write has, once some messages are sent on it.
unfoldable pub Written : ByteStreamProcessor → List (List ℕ) → List ℕ → Type 0
Written proc [] stream = stream ≡ []
Written proc (m ∷ ms) stream =
    (sent : List ℕ) × (rest : List ℕ) × (send_byte_on_stream {E = StreamError} (λ bytes. none) proc
        m
      ≡ ret (sent, none))
    × (stream ≡ sent ++ rest)
    × Written proc ms rest

read_end :
    (proc : ByteStreamProcessor)
    → 4 ≤ proc.header_size_byte
    → receive_byte_from_stream proc [] ≡ ret (err stream_end)
unfolding receive_byte_from_stream read_full
read_end proc enough = rw (receive_byte_from_stream, ends proc.header_size_byte enough) refl
  where
    ends : (n : ℕ) → 4 ≤ n → read_full n [] ≡ none
    ends zero h = absurd (omega arith)
    ends (suc n) h = refl

delivers :
    (msg : Text) (p : TcpPeer StreamError) (i : ℕ) (s : RecvSession StreamError)
    → p.active ≡ some i
    → get_elem? p.sessions i ≡ some s
    → s.is_done ≡ false
    → s.is_closed ≡ false
    → length s.messages < message_capacity
    → deliver_message msg p
      ≡ ret (
        record p { sessions = set p.sessions i (record s { messages = s.messages ++ (msg ∷ []) }) },
        delivered,
      )
unfolding deliver_message send_message
delivers msg p i s a found lasts fresh room =
    let fits : ltb (length s.messages) message_capacity ≡ true = ground (arith, room) in
    simp (deliver_message, send_message, a, found, lasts, fresh, fits)

reads :
    (proc : ByteStreamProcessor) (m : List ℕ) (sent rest : List ℕ)
    → 4 ≤ proc.header_size_byte
    → proc.max_message_byte < 4294967296
    → length m ≤ proc.max_message_byte
    → send_byte_on_stream {E = StreamError} (λ bytes. none) proc m ≡ ret (sent, none)
    → receive_byte_from_stream proc (sent ++ rest) ≡ ret (ok (m, rest))
reads proc m sent rest enough fits small written =
    let (sent', again, read) =
      receive-send_byte_on_stream {E = StreamError} (λ bytes. none) proc m rest enough fits small
        (λ bytes. refl) in
    let same : sent' ≡ sent = ap fst (ret_inj (sym again ∙ written)) in
    subst (λ bytes. receive_byte_from_stream proc (bytes ++ rest) ≡ ret (ok (m, rest))) same read

append_nil : (xs : List Text) → xs ++ [] ≡ xs
append_nil [] = refl
append_nil (x ∷ xs) = ap (◌∷◌ x) (append_nil xs)

append_one : (xs : List Text) (m : Text) (ms : List Text) → (xs ++ (m ∷ [])) ++ ms ≡ xs ++ (m ∷ ms)
append_one [] m ms = refl
append_one (x ∷ xs) m ms = ap (◌∷◌ x) (append_one xs m ms)

-- The session that the loop leaves.
unfoldable pub EndsWith : ℕ → List Text → TcpPeer StreamError × Bool → Type 0
EndsWith i messages (p', is_blocked) =
    (is_blocked ≡ false)
    × (p'.active ≡ none)
    × ((s : RecvSession StreamError) × (get_elem? p'.sessions i ≡ some s)
        × (s.messages ≡ messages)
        × (s.is_closed ≡ true))

-- Messages that are sent on a connection, each within the limit, come to the active session of the peer
-- at its other end in their order, behind what the session holds, as long as they fit its channel; the
-- end of the connection then closes the session. The header has at least four bytes and the limit fits
-- 32 bits.
pub read_loop-delivers :
    (proc : ByteStreamProcessor) (ms : List (List ℕ)) (stream : List ℕ) (p : TcpPeer StreamError)
    (i : ℕ) (s : RecvSession StreamError)
    → 4 ≤ proc.header_size_byte
    → proc.max_message_byte < 4294967296
    → All (λ m. length m ≤ proc.max_message_byte) ms
    → Written proc ms stream
    → p.active ≡ some i
    → get_elem? p.sessions i ≡ some s
    → s.is_done ≡ false
    → s.is_closed ≡ false
    → length s.messages + length ms ≤ message_capacity
    → (r : TcpPeer StreamError × Bool) × (read_loop (suc (length ms)) proc stream p ≡ ret r)
      × EndsWith i (s.messages ++ ms) r
unfolding read_loop Written EndsWith broken broken_peer shut reported
read_loop-delivers proc [] stream p i s enough fits small written a found lasts fresh room =
    let ended = read_error-broken stream_end p i s a found fresh in
    (
      (broken_peer stream_end p i s, false),
      simp (read_loop, written, read_end proc enough, ended),
      (
        refl,
        refl,
        (
          broken stream_end s,
          get_elem?-set_self p.sessions i (broken stream_end s) (lt-length p.sessions i found),
          sym (append_nil s.messages),
          refl,
        ),
      ),
    )
read_loop-delivers proc (m ∷ ms) stream p i s enough fits (small, smaller)
      (sent, rest, wrote, whole, others) a found lasts fresh room =
    let s' = record s { messages = s.messages ++ (m ∷ []) } in
    let p' = record p { sessions = set p.sessions i s' } in
    let read = reads proc m sent rest enough fits small wrote in
    let taken = delivers m p i s a found lasts fresh (omega (arith, room)) in
    let (r, ran, good) =
      read_loop-delivers proc ms rest p' i s' enough fits smaller others a
        (get_elem?-set_self p.sessions i s' (lt-length p.sessions i found)) lasts fresh
        (omega (arith, room, length-append s.messages (m ∷ []))) in
    (
      r,
      simp (read_loop, whole, read, taken, ran),
      subst (λ messages. EndsWith i messages r) (append_one s.messages m ms) good,
    )
