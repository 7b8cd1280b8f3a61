-- ===== src/P2p/Stream.antt =====
-- p2p/peer.go: the framing of messages on a connection, `ByteStreamProcessor`. What a connection
-- answers to a write is an argument; what it gives to a reader are its bytes, then its end.
pub mod Framing
use conver_go.Base.{
  List, Option, Outcome, Result, [], err, if◌then◌else◌, leb, length, ltb, none, ok, panic, ret,
  some, suc, zero, ℕ, ◌%◌, ◌*◌, ◌++◌, ◌+◌, ◌-◌, ◌/◌, ◌>>=◌, ◌∷◌,
}

pub record ByteStreamProcessor : Type 0 where
  pub header_size_byte : ℕ
  pub max_message_byte : ℕ

-- `GetNewStreamProcessor`; `none` is its error.
unfoldable pub get_new_stream_processor : ℕ → ℕ → Option ByteStreamProcessor
get_new_stream_processor header_size_byte max_message_byte =
    if leb max_message_byte header_size_byte
    then none
    else some (record { header_size_byte = header_size_byte; max_message_byte = max_message_byte })

-- `binary.BigEndian.PutUint32` and `Uint32`, which panic on less than four bytes.
unfoldable pub put_uint32 : ℕ → List ℕ
put_uint32 n = n / 16777216 % 256 ∷ n / 65536 % 256 ∷ n / 256 % 256 ∷ n % 256 ∷ []

unfoldable pub uint32 : List ℕ → Outcome ℕ
uint32 (a ∷ b ∷ c ∷ d ∷ rest) = ret (a * 16777216 + b * 65536 + c * 256 + d)
uint32 bytes = panic

unfoldable pub zeros : ℕ → List ℕ
zeros zero = []
zeros (suc n) = 0 ∷ zeros n

-- The header of a message of a length: its lowest 32 bits in the first four bytes.
unfoldable pub header_of : ByteStreamProcessor → ℕ → Outcome (List ℕ)
header_of p n =
    if ltb p.header_size_byte 4
    then panic
    else ret (put_uint32 (n % 4294967296) ++ zeros (p.header_size_byte - 4))

-- `SendByteOnStream`: the bytes that were handed to the connection, and the error of a write.
unfoldable pub send_byte_on_stream :
    {E : Type 0} → (List ℕ → Option E) → ByteStreamProcessor → List ℕ → Outcome (List ℕ × Option E)
send_byte_on_stream write p bytes = header_of p (length bytes) >>= λ header. elim (write header) [
  | some e ↦ ret (header, some e)
  | none ↦ ret (header ++ bytes, write bytes)
]

pub data StreamError : Type 0 where
  stream_end too_large : StreamError

-- `io.ReadFull`: the bytes and what is left on the connection; `none` where it ends before.
unfoldable pub read_full : ℕ → List ℕ → Option (List ℕ × List ℕ)
read_full zero stream = some ([], stream)
read_full (suc n) [] = none
read_full (suc n) (b ∷ stream) = elim (read_full n stream) [
  | none ↦ none
  | some (bytes, rest) ↦ some (b ∷ bytes, rest)
]

-- `ReceiveByteFromStream`: the message with what is left on the connection.
unfoldable pub receive_byte_from_stream :
    ByteStreamProcessor → List ℕ → Outcome (Result StreamError (List ℕ × List ℕ))
receive_byte_from_stream p stream = elim (read_full p.header_size_byte stream) [
  | none ↦ ret (err stream_end)
  | some (header, body) ↦ uint32 header >>= λ size.
      if ltb p.max_message_byte size
      then ret (err too_large)
      else ret (elim (read_full size body) [ none ↦ err stream_end | some read ↦ ok read ])
]
