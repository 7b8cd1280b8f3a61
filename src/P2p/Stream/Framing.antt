-- ===== src/P2p/Stream/Framing.antt =====
-- Sending and receiving on one connection of p2p/peer.go.
use conver_go.Base.{
  List, Option, [], ap, arith, err, false, if-false, if-true, if◌then◌else◌, length, ltb, none, ok,
  refl, ret, some, subst, suc, text_Eq, true, zero, ℕ, ◌%◌, ◌*◌, ◌++◌, ◌+◌, ◌-◌, ◌/◌, ◌<◌, ◌∙◌, ◌∷◌,
  ◌≡◌, ◌≤◌,
}
use conver_go.P2p.Stream.{
  ByteStreamProcessor, put_uint32, uint32, zeros, header_of, send_byte_on_stream, stream_end,
  too_large, read_full, receive_byte_from_stream,
}

read_full-append :
    (bytes rest : List ℕ) → read_full (length bytes) (bytes ++ rest) ≡ some (bytes, rest)
unfolding read_full
read_full-append [] rest = refl
read_full-append (b ∷ bytes) rest = rw (read_full, read_full-append bytes rest) refl

length-zeros : (n : ℕ) → length (zeros n) ≡ n
unfolding zeros
length-zeros zero = refl
length-zeros (suc n) = ap suc (length-zeros n)

four_bytes :
    (n : ℕ)
    → n < 4294967296
    → n / 16777216 % 256 * 16777216 + n / 65536 % 256 * 65536 + n / 256 % 256 * 256 + n % 256 ≡ n
four_bytes n h = omega arith

uint32-put_uint32 : (n : ℕ) (rest : List ℕ) → n < 4294967296 → uint32 (put_uint32 n ++ rest) ≡ ret n
unfolding uint32 put_uint32
uint32-put_uint32 n rest h = ap ret (four_bytes n h)

append_assoc : (xs ys zs : List ℕ) → (xs ++ ys) ++ zs ≡ xs ++ (ys ++ zs)
append_assoc [] ys zs = refl
append_assoc (x ∷ xs) ys zs = ap (◌∷◌ x) (append_assoc xs ys zs)

header : ByteStreamProcessor → ℕ → List ℕ
header p n = put_uint32 n ++ zeros (p.header_size_byte - 4)

header_of-eq :
    (p : ByteStreamProcessor) (n : ℕ)
    → 4 ≤ p.header_size_byte
    → n < 4294967296
    → header_of p n ≡ ret (header p n)
unfolding header_of header
header_of-eq p n enough small =
    let mod_small : n % 4294967296 ≡ n = omega (arith, small) in
    let wide : ltb p.header_size_byte 4 ≡ false = ground (arith, enough) in
    if-false _ _ wide ∙ rw mod_small refl

length-header :
    (p : ByteStreamProcessor) (n : ℕ)
    → 4 ≤ p.header_size_byte
    → length (header p n) ≡ p.header_size_byte
unfolding header put_uint32
length-header p n enough = omega (arith, enough, length-zeros (p.header_size_byte - 4))

-- What one message is on the connection.
send_lem :
    {E : Type 0} (write : List ℕ → Option E) (p : ByteStreamProcessor) (bytes : List ℕ)
    → 4 ≤ p.header_size_byte
    → length bytes < 4294967296
    → ((sent : List ℕ) → write sent ≡ none)
    → send_byte_on_stream write p bytes ≡ ret (header p (length bytes) ++ bytes, none)
unfolding send_byte_on_stream
send_lem write p bytes enough small fine =
    rw
      (
        send_byte_on_stream,
        header_of-eq p (length bytes) enough small,
        fine (header p (length bytes)),
        fine bytes,
      )
      refl

uint32-header : (p : ByteStreamProcessor) (n : ℕ) → n < 4294967296 → uint32 (header p n) ≡ ret n
unfolding header
uint32-header p n h = uint32-put_uint32 n (zeros (p.header_size_byte - 4)) h

receive_lem :
    (p : ByteStreamProcessor) (n : ℕ) (body : List ℕ)
    → 4 ≤ p.header_size_byte
    → n < 4294967296
    → receive_byte_from_stream p (header p n ++ body) ≡ (
        if ltb p.max_message_byte n
        then ret (err too_large)
        else ret (elim (read_full n body) [ none ↦ err stream_end | some read ↦ ok read ]))
unfolding receive_byte_from_stream
receive_lem p n body enough small =
    let e : read_full p.header_size_byte (header p n ++ body) ≡ some (header p n, body) =
      subst (λ k. read_full k (header p n ++ body) ≡ some (header p n, body))
        (length-header p n enough) (read_full-append (header p n) body) in
    rw (receive_byte_from_stream, e, uint32-header p n small) refl

-- A message that the connection takes is received as it was sent, whatever follows it, where its
-- length is within the limit of the two sides, the limit fits 32 bits and the header has at least
-- four bytes.
pub receive-send_byte_on_stream :
    {E : Type 0} (write : List ℕ → Option E) (p : ByteStreamProcessor) (bytes rest : List ℕ)
    → 4 ≤ p.header_size_byte
    → p.max_message_byte < 4294967296
    → length bytes ≤ p.max_message_byte
    → ((sent : List ℕ) → write sent ≡ none)
    → (sent : List ℕ) × (send_byte_on_stream write p bytes ≡ ret (sent, none))
      × (receive_byte_from_stream p (sent ++ rest) ≡ ret (ok (bytes, rest)))
receive-send_byte_on_stream write p bytes rest enough fits small fine =
    let within : ltb p.max_message_byte (length bytes) ≡ false = ground (arith, small) in
    (
      header p (length bytes) ++ bytes,
      send_lem write p bytes enough (omega (arith, fits, small)) fine,
      ap (receive_byte_from_stream p) (append_assoc (header p (length bytes)) bytes rest)
          ∙ (receive_lem p (length bytes) (bytes ++ rest) enough (omega (arith, fits, small))
              ∙ (if-false _ _ within ∙ rw (read_full-append bytes rest) refl)),
    )

-- A message above the receiver's limit, and below 2^32 bytes, is sent without an error all the
-- same, and is refused where it is received.
pub send_byte_on_stream-too_large :
    {E : Type 0} (write : List ℕ → Option E) (p : ByteStreamProcessor) (bytes rest : List ℕ)
    → 4 ≤ p.header_size_byte
    → p.max_message_byte < length bytes
    → length bytes < 4294967296
    → ((sent : List ℕ) → write sent ≡ none)
    → (sent : List ℕ) × (send_byte_on_stream write p bytes ≡ ret (sent, none))
      × (receive_byte_from_stream p (sent ++ rest) ≡ ret (err too_large))
send_byte_on_stream-too_large write p bytes rest enough big small fine =
    let beyond : ltb p.max_message_byte (length bytes) ≡ true = ground (arith, big) in
    (
      header p (length bytes) ++ bytes,
      send_lem write p bytes enough small fine,
      ap (receive_byte_from_stream p) (append_assoc (header p (length bytes)) bytes rest)
          ∙ (receive_lem p (length bytes) (bytes ++ rest) enough small ∙ if-true _ _ beyond),
    )
