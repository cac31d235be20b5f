-- ===== src/Forwarding/Sealed.antt =====
-- The forward message of antenna_forwarding_protocol/src/lib.rs, which is sealed for its reader. The
-- sealed box of sodiumoxide is a parameter, and so is the nonce that it draws.
use rita.Common.{
  ℕ, ◌+◌, ◌≡◌, ◌≤◌, ◌<◌, inl, refl, ap, ◌∙◌, not, Option, none, some, List, ◌++◌, arith, ltb, ◌==◌,
  if◌then◌else◌,
}
use rita.Common.Lists.{length, length-++, ++_assoc}
use rita.Common.Bytes.{slice, capacity}
use rita.Outcome.{ResultOf, ok, err, panic}
use rita.Forwarding.{
  ForwardingProtocolMessage, ForwardingProtocolError, Json, Reading, header, header_len, as_u32,
  magic, forward_message, forward_message_type, deserialized, read_header, bad_magic,
  wrong_packet_type, invalid_len, slice_too_small, decryption_failed,
}
use rita.Types.{IpAddr}
use rita.Forwarding.Header.{length-header, body-slices, read_header-header}

abbrev pub nonce_bytes : ℕ
nonce_bytes = 24

-- box_: `seal plaintext nonce public_key secret_key`, and `open`, `none` where that fails.
pub record SealedBox : Type 0 where
  pub seal : List ℕ → List ℕ → ℕ → ℕ → List ℕ
  pub open_box : List ℕ → List ℕ → ℕ → ℕ → Option (List ℕ)

module _ (json : Json) (box : SealedBox) where
  -- The packet around a sealed payload.
  unfoldable pub sealed_packet : List ℕ → List ℕ → List ℕ
  sealed_packet nonce ciphertext =
      header forward_message_type (as_u32 (length (nonce ++ ciphertext))) ++ (nonce ++ ciphertext)

  unfoldable pub get_encrypted_forward_message :
      (nonce : List ℕ)
      → (server_secretkey client_publickey : ℕ) → ForwardingProtocolMessage
      → ResultOf ForwardingProtocolError (List ℕ)
  unfolding sealed_packet
  get_encrypted_forward_message nonce server_sk client_pk (forward_message ip port antenna_port) =
      let plaintext = json.to_vec (forward_message ip port antenna_port) in
      ok (sealed_packet nonce (box.seal plaintext nonce client_pk server_sk))
  get_encrypted_forward_message nonce server_sk client_pk _ = err wrong_packet_type

  abbrev opened : ℕ → Option (List ℕ) → Reading
  opened end_bytes none = err decryption_failed
  opened end_bytes (some plaintext) = deserialized json end_bytes (json.from_slice plaintext)

  -- From the nonce on.
  unfoldable pub open_payload : ℕ → List ℕ → (server_publickey client_secretkey : ℕ) → Reading
  open_payload packet_len payload server_pk client_sk =
      let nonce_end = header_len + nonce_bytes in
      let end_bytes = header_len + packet_len in
      elim (slice header_len nonce_end payload) [
        | none ↦ panic
        | some nonce ↦ elim (slice nonce_end end_bytes payload) [
          | none ↦ panic
          | some ciphertext ↦ opened end_bytes (box.open_box ciphertext nonce server_pk client_sk)
        ]
      ]

  unfoldable pub read_encrypted_forward_message :
      List ℕ → (server_publickey client_secretkey : ℕ) → Reading
  unfolding read_header open_payload
  read_encrypted_forward_message payload server_pk client_sk =
      if ltb (length payload) header_len then err invalid_len else elim (read_header payload) [
        | none ↦ panic
        | some (packet_magic, packet_type, packet_len) ↦
            if not (packet_magic == magic)
            then err bad_magic
            else if not (packet_type == forward_message_type)
            then err wrong_packet_type
            else if ltb (length payload) (packet_len + header_len)
            then err (slice_too_small (as_u32 (packet_len + header_len)) (as_u32 (length payload)))
            else open_payload packet_len payload server_pk client_sk
      ]

  read_sealed-whole :
      (n : ℕ) (payload : List ℕ) (pk sk : ℕ)
      → read_header payload ≡ some (magic, forward_message_type, n)
      → n + header_len ≤ length payload
      → read_encrypted_forward_message payload pk sk ≡ open_payload n payload pk sk
  unfolding read_encrypted_forward_message
  read_sealed-whole n payload pk sk e m = ground (arith, e)

  -- A sealed packet of which nothing is missing is opened.
  read_sealed-header :
      (n : ℕ) (body : List ℕ) (pk sk : ℕ)
      → n < capacity 4
      → n ≤ length body
      → read_encrypted_forward_message (header forward_message_type n ++ body) pk sk
        ≡ open_payload n (header forward_message_type n ++ body) pk sk
  read_sealed-header n body pk sk k m =
      let t = forward_message_type in
      read_sealed-whole n (header t n ++ body) pk sk (read_header-header t n body (omega arith) k)
        (omega (arith, length-++ (header t n) body, length-header t n))

  open_payload-slices :
      (n : ℕ) (payload nonce ciphertext plaintext : List ℕ) (pk sk : ℕ)
      (m : ForwardingProtocolMessage)
      → slice header_len (header_len + nonce_bytes) payload ≡ some nonce
      → slice (header_len + nonce_bytes) (header_len + n) payload ≡ some ciphertext
      → box.open_box ciphertext nonce pk sk ≡ some plaintext
      → json.from_slice plaintext ≡ inl m
      → open_payload n payload pk sk ≡ ok (header_len + n, m)
  unfolding open_payload
  open_payload-slices n payload nonce ciphertext plaintext pk sk m h k o l =
      ground (arith, h, k, o, l)

  -- A packet too short for a nonce.
  open_payload-short :
      (n : ℕ) (payload : List ℕ) (pk sk : ℕ)
      → n < nonce_bytes
      → open_payload n payload pk sk ≡ panic
  unfolding open_payload slice
  open_payload-short n payload pk sk h = ground arith

  pub short_sealed_packet_panics :
      (n : ℕ) (body : List ℕ) (pk sk : ℕ)
      → n < nonce_bytes
      → n ≤ length body
      → read_encrypted_forward_message (header forward_message_type n ++ body) pk sk ≡ panic
  short_sealed_packet_panics n body pk sk h k =
      read_sealed-header n body pk sk (omega arith) k
      ∙ open_payload-short n (header forward_message_type n ++ body) pk sk h

  read_sealed-packet :
      (n : ℕ) (nonce ciphertext plaintext rest : List ℕ) (pk sk : ℕ) (m : ForwardingProtocolMessage)
      → nonce_bytes ≡ length nonce
      → n ≡ nonce_bytes + length ciphertext
      → n < capacity 4
      → box.open_box ciphertext nonce pk sk ≡ some plaintext
      → json.from_slice plaintext ≡ inl m
      → read_encrypted_forward_message
          ((header forward_message_type n ++ (nonce ++ ciphertext)) ++ rest)
          pk
          sk
        ≡ ok (length (header forward_message_type n ++ (nonce ++ ciphertext)), m)
  read_sealed-packet n nonce ciphertext plaintext rest pk sk m h e fits opens law =
      let t = forward_message_type in
      let body = nonce ++ ciphertext in
      let slices = body-slices t n nonce_bytes nonce ciphertext rest h e in
      ap (λ bytes. read_encrypted_forward_message bytes pk sk) (++_assoc (header t n) body rest)
      ∙ read_sealed-header n (body ++ rest) pk sk fits
          (omega (arith, length-++ body rest, length-++ nonce ciphertext))
      ∙ open_payload-slices n (header t n ++ (body ++ rest)) nonce ciphertext plaintext pk sk m
          slices.0 slices.1 opens law
      ∙ ap (λ end_bytes. ok (end_bytes, m))
          (omega
            (arith, length-++ (header t n) body, length-++ nonce ciphertext, length-header t n))

  -- Given a nonce of 24 bytes and a sealed payload of fewer than 2^32, what
  -- `get_encrypted_forward_message` makes of a forward message is opened by
  -- `read_encrypted_forward_message` with the keys of the other end, whatever follows it, provided
  -- that the box opens what it sealed with those keys and that JSON reads what it wrote for the
  -- message.
  pub read_encrypted-get_encrypted :
      (ip : IpAddr) (server_port antenna_port : ℕ) (nonce rest : List ℕ)
      (server_pk server_sk client_pk client_sk : ℕ)
      → nonce_bytes ≡ length nonce
      → length (
          nonce
          ++ box.seal
              (json.to_vec (forward_message ip server_port antenna_port))
              nonce
              client_pk
              server_sk)
        < capacity 4
      → ((plaintext : List ℕ)
          → box.open_box (box.seal plaintext nonce client_pk server_sk) nonce server_pk client_sk
            ≡ some plaintext)
      → json.from_slice (json.to_vec (forward_message ip server_port antenna_port))
        ≡ inl (forward_message ip server_port antenna_port)
      → (bytes : List ℕ) × ((get_encrypted_forward_message nonce server_sk client_pk
              (forward_message ip server_port antenna_port)
            ≡ ok bytes)
          × (read_encrypted_forward_message (bytes ++ rest) server_pk client_sk
              ≡ ok (length bytes, forward_message ip server_port antenna_port)))
  unfolding get_encrypted_forward_message sealed_packet
  read_encrypted-get_encrypted ip server_port antenna_port nonce rest pk sk client_pk client_sk h
        fits opens law =
      let m = forward_message ip server_port antenna_port in
      let ciphertext = box.seal (json.to_vec m) nonce client_pk sk in
      (
        _,
        (
          refl,
          read_sealed-packet (as_u32 (length (nonce ++ ciphertext))) nonce ciphertext
              (json.to_vec m) rest pk client_sk m h (omega (arith, length-++ nonce ciphertext))
              (omega arith) (opens (json.to_vec m)) law,
        ),
      )
