-- ===== src/Forwarding/RoundTrip.antt =====
-- What `get_message` of antenna_forwarding_protocol/src/lib.rs writes, read by `read_message`.
use rita.Common.{
  ℕ, ◌+◌, ◌-◌, ◌%◌, ◌^◌, ◌≡◌, ◌≤◌, ◌<◌, refl, sym, ap, ◌∙◌, some, List, ◌++◌, arith, inl, subst,
}
use mathlib.Core.Option.{some-injective}
use rita.Common.Lists.{length, length-++, ++_assoc}
use rita.Common.Bytes.{be_bytes, from_be, slice, capacity, length-be_bytes, from_be-be_bytes}
use rita.Types.{IpAddr}
use rita.Outcome.{ok, panic}
use rita.Forwarding.{
  ForwardingProtocolMessage, Json, header, header_len, as_u32, identification_message,
  forward_message, error_message, connection_close_message, connection_data_message,
  forwarding_close_message, keep_alive_message, make_serde_packet, get_message, read_serde,
  read_connection_close, read_connection_data, read_body, read_message, identification_message_type,
  connection_close_message_type, connection_data_message_type,
}
use rita.Forwarding.Header.{length-header, slice-body, body-slices, read_message-header}

-- The end of a data packet, which is counted by way of the length less 8.
wrapped-end :
    (n : ℕ)
    → 8 ≤ n
    → n < capacity 4
    → (header_len + 8 + (n + 2 ^ 64 - 8) % 2 ^ 64) % 2 ^ 64 ≡ header_len + n
wrapped-end n low high = omega arith

module _ (json : Json) where
  -- A slice of known contents is read as JSON.
  read_serde-slice :
      (n : ℕ) (payload body : List ℕ) (m : ForwardingProtocolMessage)
      → slice header_len (header_len + n) payload ≡ some body
      → json.from_slice body ≡ inl m
      → read_serde json n payload ≡ ok (header_len + n, m)
  unfolding read_serde
  read_serde-slice n payload body m h k = ground (arith, h, k)

  -- The packets that hold JSON.
  read_serde-packet :
      (t : ℕ) (m : ForwardingProtocolMessage) (rest : List ℕ)
      → t ≤ 6
      → ((n : ℕ) (payload : List ℕ) → read_body json t n payload ≡ read_serde json n payload)
      → json.from_slice (json.to_vec m) ≡ inl m
      → length (json.to_vec m) < capacity 4
      → read_message json (make_serde_packet json t m ++ rest)
        ≡ ok (length (make_serde_packet json t m), m)
  unfolding make_serde_packet
  read_serde-packet t m rest h is_serde law fits =
      let body = json.to_vec m in
      let n = as_u32 (length body) in
      ap (read_message json) (++_assoc (header t n) body rest)
      ∙ read_message-header json t n (body ++ rest) h (omega arith)
          (omega (arith, length-++ body rest))
      ∙ is_serde n (header t n ++ (body ++ rest))
      ∙ read_serde-slice n (header t n ++ (body ++ rest)) body m
          (slice-body t n (header_len + n) body rest (omega arith)) law
      ∙ ap (λ bytes_read. ok (bytes_read, m))
          (omega (arith, length-++ (header t n) body, length-header t n))

  read_close-slice :
      (n : ℕ) (payload connection_id : List ℕ)
      → n ≡ 8
      → slice header_len (header_len + 8) payload ≡ some connection_id
      → read_connection_close json n payload
        ≡ ok (header_len + 8, connection_close_message (from_be connection_id))
  unfolding read_connection_close
  read_close-slice n payload connection_id e h = ground (arith, h)

  read_data-slice :
      (n : ℕ) (payload connection_id value : List ℕ)
      → 8 ≤ n
      → n < capacity 4
      → slice header_len (header_len + 8) payload ≡ some connection_id
      → slice (header_len + 8) (header_len + n) payload ≡ some value
      → read_connection_data json n payload
        ≡ ok (header_len + n, connection_data_message (from_be connection_id) value)
  unfolding read_connection_data
  read_data-slice n payload connection_id value low high h k =
      ground (arith, h, k, wrapped-end n low high)

  read_body-close :
      (n : ℕ) (payload : List ℕ)
      → read_body json connection_close_message_type n payload
        ≡ read_connection_close json n payload
  unfolding read_body
  read_body-close n payload = refl

  read_body-data :
      (n : ℕ) (payload : List ℕ)
      → read_body json connection_data_message_type n payload ≡ read_connection_data json n payload
  unfolding read_body
  read_body-data n payload = refl

  read_close-packet :
      (stream_id : ℕ) (rest : List ℕ)
      → stream_id < capacity 8
      → read_message json ((header connection_close_message_type 8 ++ be_bytes 8 stream_id) ++ rest)
        ≡ ok (
          length (header connection_close_message_type 8 ++ be_bytes 8 stream_id),
          connection_close_message stream_id,
        )
  read_close-packet stream_id rest fits =
      let t = connection_close_message_type in
      let body = be_bytes 8 stream_id in
      ap (read_message json) (++_assoc (header t 8) body rest)
      ∙ read_message-header json t 8 (body ++ rest) (omega arith) (omega arith)
          (omega (arith, length-++ body rest, length-be_bytes 8 stream_id))
      ∙ read_body-close 8 (header t 8 ++ (body ++ rest))
      ∙ read_close-slice 8 (header t 8 ++ (body ++ rest)) body refl
          (slice-body t 8 (header_len + 8) body rest (omega (arith, length-be_bytes 8 stream_id)))
      ∙ rw (from_be-be_bytes 8 stream_id fits) (
          ap (λ bytes_read. ok (bytes_read, connection_close_message stream_id))
            (omega
              (arith, length-++ (header t 8) body, length-header t 8, length-be_bytes 8 stream_id)))

  read_data-short : (n : ℕ) (payload : List ℕ) → n < 8 → read_connection_data json n payload ≡ panic
  unfolding read_connection_data slice
  read_data-short n payload h = ground arith

  -- A data packet whose length is less than the 8 bytes of its stream number, and which has as many
  -- bytes as it announces, makes `read_message` panic.
  pub short_data_packet_panics :
      (n : ℕ) (body : List ℕ)
      → n < 8
      → n ≤ length body
      → read_message json (header connection_data_message_type n ++ body) ≡ panic
  short_data_packet_panics n body h k =
      read_message-header json connection_data_message_type n body (omega arith) (omega arith) k
      ∙ read_body-data n (header connection_data_message_type n ++ body)
      ∙ read_data-short n (header connection_data_message_type n ++ body) h

  read_data-packet :
      (stream_id n : ℕ) (value rest : List ℕ)
      → stream_id < capacity 8
      → n ≡ length value + 8
      → n < capacity 4
      → read_message json
          ((header connection_data_message_type n ++ (be_bytes 8 stream_id ++ value)) ++ rest)
        ≡ ok (
          length (header connection_data_message_type n ++ (be_bytes 8 stream_id ++ value)),
          connection_data_message stream_id value,
        )
  read_data-packet stream_id n value rest fits e high =
      let t = connection_data_message_type in
      let id = be_bytes 8 stream_id in
      let body = id ++ value in
      let slices =
        body-slices t n 8 id value rest (sym (length-be_bytes 8 stream_id)) (omega arith) in
      ap (read_message json) (++_assoc (header t n) body rest)
      ∙ read_message-header json t n (body ++ rest) (omega arith) high
          (omega (arith, length-++ body rest, length-++ id value, length-be_bytes 8 stream_id))
      ∙ read_body-data n (header t n ++ (body ++ rest))
      ∙ read_data-slice n (header t n ++ (body ++ rest)) id value (omega arith) high slices.0
          slices.1
      ∙ rw (from_be-be_bytes 8 stream_id fits) (
          ap (λ bytes_read. ok (bytes_read, connection_data_message stream_id value))
            (omega (
              arith,
              length-++ (header t n) body,
              length-++ id value,
              length-header t n,
              length-be_bytes 8 stream_id,
            )))

  abbrev Back : ForwardingProtocolMessage → List ℕ → List ℕ → Type 0
  Back m rest bytes =
      length bytes < capacity 4 → read_message json (bytes ++ rest) ≡ ok (length bytes, m)

  serde-Back :
      (t : ℕ) (m : ForwardingProtocolMessage) (bytes rest : List ℕ)
      → t ≤ 6
      → ((n : ℕ) (payload : List ℕ) → read_body json t n payload ≡ read_serde json n payload)
      → json.from_slice (json.to_vec m) ≡ inl m
      → some (make_serde_packet json t m) ≡ some bytes
      → Back m rest bytes
  unfolding make_serde_packet
  serde-Back t m bytes rest h is_serde law e = subst (Back m rest) (some-injective _ _ e) (λ l.
      read_serde-packet t m rest h is_serde law (
        omega (
          arith,
          length-++ (header t (as_u32 (length (json.to_vec m)))) (json.to_vec m),
          length-header t (as_u32 (length (json.to_vec m))),
        )))

  data-Back :
      (stream_id n : ℕ) (value bytes rest : List ℕ)
      → stream_id < capacity 8
      → n ≡ as_u32 (as_u32 (length value) + 8)
      → some (header connection_data_message_type n ++ (be_bytes 8 stream_id ++ value)) ≡ some bytes
      → Back (connection_data_message stream_id value) rest bytes
  data-Back stream_id n value bytes rest fits k e =
      subst (Back (connection_data_message stream_id value) rest) (some-injective _ _ e) (λ l.
        let whole : n ≡ length value + 8 = omega (
          arith,
          length-++ (header connection_data_message_type n) (be_bytes 8 stream_id ++ value),
          length-++ (be_bytes 8 stream_id) value,
          length-header connection_data_message_type n,
          length-be_bytes 8 stream_id,
        ) in
        read_data-packet stream_id n value rest fits whole (omega (arith, whole)))

  -- Whether the number of a stream fits its u64.
  abbrev pub StreamFits : ForwardingProtocolMessage → Type 0
  StreamFits (identification_message id) = Unit {0}
  StreamFits (forward_message ip server_port antenna_port) = Unit {0}
  StreamFits (error_message error) = Unit {0}
  StreamFits (connection_close_message stream_id) = stream_id < capacity 8
  StreamFits (connection_data_message stream_id payload) = stream_id < capacity 8
  StreamFits forwarding_close_message = Unit {0}
  StreamFits keep_alive_message = Unit {0}

  -- A forward message as JSON in a packet of the type of identifications is read by `read_message`
  -- as that forward message, provided that JSON reads what it wrote for it, in fewer than 2^32
  -- bytes.
  pub clear_forward_message_accepted :
      (ip : IpAddr) (server_port antenna_port : ℕ) (rest : List ℕ)
      → json.from_slice (json.to_vec (forward_message ip server_port antenna_port))
        ≡ inl (forward_message ip server_port antenna_port)
      → length (json.to_vec (forward_message ip server_port antenna_port)) < capacity 4
      → read_message json (
          make_serde_packet json identification_message_type
            (forward_message ip server_port antenna_port)
          ++ rest)
        ≡ ok (
          length (
              make_serde_packet json identification_message_type
                (forward_message ip server_port antenna_port)),
          forward_message ip server_port antenna_port,
        )
  unfolding read_body
  clear_forward_message_accepted ip server_port antenna_port rest law fits =
      read_serde-packet 0 (forward_message ip server_port antenna_port) rest (omega arith)
        (λ n payload. refl) law fits

  -- A message that `get_message` writes, in fewer than 2^32 bytes and with a stream number of 64
  -- bits, is read back by `read_message` with the number of its bytes, whatever follows it,
  -- provided that JSON reads what it wrote for the message.
  pub read_message-get_message :
      (m : ForwardingProtocolMessage) (bytes rest : List ℕ)
      → get_message json m ≡ some bytes
      → length bytes < capacity 4
      → StreamFits m
      → json.from_slice (json.to_vec m) ≡ inl m
      → read_message json (bytes ++ rest) ≡ ok (length bytes, m)
  unfolding get_message read_body
  read_message-get_message (identification_message id) bytes rest e l s law =
      serde-Back 0 (identification_message id) bytes rest (omega arith) (λ n payload. refl) law e l
  read_message-get_message (forward_message ip server_port antenna_port) bytes rest e l s law =
      ground arith
  read_message-get_message (error_message error) bytes rest e l s law =
      serde-Back 2 (error_message error) bytes rest (omega arith) (λ n payload. refl) law e l
  read_message-get_message (connection_close_message stream_id) bytes rest e l s law =
      subst (Back (connection_close_message stream_id) rest) (some-injective _ _ e)
        (λ _. read_close-packet stream_id rest s) l
  read_message-get_message (connection_data_message stream_id payload) bytes rest e l s law =
      data-Back stream_id _ payload bytes rest s refl e l
  read_message-get_message forwarding_close_message bytes rest e l s law =
      serde-Back 5 forwarding_close_message bytes rest (omega arith) (λ n payload. refl) law e l
  read_message-get_message keep_alive_message bytes rest e l s law =
      serde-Back 6 keep_alive_message bytes rest (omega arith) (λ n payload. refl) law e l
