-- ===== src/Forwarding.antt =====
-- antenna_forwarding_protocol/src/lib.rs: the messages between a node and the server that forwards
-- its antennas, as bytes. A slice that is out of range panics. JSON and the sealed box of the NaCl
-- library are third-party code, and parameters.
pub mod Header
pub mod RoundTrip
pub mod Sealed
pub mod Stream
pub mod Write
mod Tests
use rita.Common.{
  ℕ, ◌+◌, ◌-◌, ◌%◌, ◌^◌, ◌⊎◌, inl, inr, Bool, true, false, not, ◌&&◌, Option, none, some, String,
  List, [], ◌∷◌, ◌++◌, ltb, leb, ◌==◌, if◌then◌else◌,
}
use rita.Common.Lists.{length}
use rita.Common.Bytes.{be_bytes, from_be, slice}
use rita.Outcome.{ResultOf, ok, err, panic}
use rita.Types.{IpAddr, Identity}

abbrev pub header_len : ℕ
header_len = 22

pub data ForwardingProtocolError : Type 0 where
  slice_too_small : (expected actual : ℕ) → ForwardingProtocolError
  serde_error : String → ForwardingProtocolError
  bad_magic invalid_len wrong_packet_type : ForwardingProtocolError
  unknown_packet_type decryption_failed : ForwardingProtocolError

pub data ForwardingProtocolMessage : Type 0 where
  identification_message : Identity → ForwardingProtocolMessage
  forward_message : (ip : IpAddr) (server_port antenna_port : ℕ) → ForwardingProtocolMessage
  error_message : String → ForwardingProtocolMessage
  connection_close_message : (stream_id : ℕ) → ForwardingProtocolMessage
  connection_data_message : (stream_id : ℕ) (payload : List ℕ) → ForwardingProtocolMessage
  forwarding_close_message keep_alive_message : ForwardingProtocolMessage

abbrev pub magic : ℕ
magic = 266244417876907680150892848205622258774

abbrev pub identification_message_type : ℕ
identification_message_type = 0

abbrev pub forward_message_type : ℕ
forward_message_type = 1

abbrev pub error_message_type : ℕ
error_message_type = 2

abbrev pub connection_close_message_type : ℕ
connection_close_message_type = 3

abbrev pub connection_data_message_type : ℕ
connection_data_message_type = 4

abbrev pub forwarding_close_message_type : ℕ
forwarding_close_message_type = 5

abbrev pub keepalive_message_type : ℕ
keepalive_message_type = 6

abbrev pub as_u32 : ℕ → ℕ
as_u32 n = n % 2 ^ 32

-- The header: the magic number, the type of the packet and its length.
unfoldable pub header : ℕ → ℕ → List ℕ
header message_type len = be_bytes 16 magic ++ (be_bytes 2 message_type ++ be_bytes 4 len)

-- `none` where a slice panics.
unfoldable pub read_header : List ℕ → Option (ℕ × ℕ × ℕ)
read_header payload = elim (slice 0 16 payload) [
  | none ↦ none
  | some packet_magic ↦ elim (slice 16 18 payload) [
    | none ↦ none
    | some packet_type ↦ elim (slice 18 header_len payload) [
      | none ↦ none
      | some packet_len ↦ some (from_be packet_magic, from_be packet_type, from_be packet_len)
    ]
  ]
]

-- serde_json: the bytes of a message, and a message or an error from bytes.
pub record Json : Type 0 where
  pub to_vec : ForwardingProtocolMessage → List ℕ
  pub from_slice : List ℕ → ForwardingProtocolMessage ⊎ String

-- What is read: the bytes taken, and the message.
abbrev pub Reading : Type 0
Reading = ResultOf ForwardingProtocolError (ℕ × ForwardingProtocolMessage)

module _ (json : Json) where
  unfoldable pub make_serde_packet : ℕ → ForwardingProtocolMessage → List ℕ
  unfolding header
  make_serde_packet message_type message =
      let payload = json.to_vec message in header message_type (as_u32 (length payload)) ++ payload

  -- `none` is the panic on a message that has to be sealed.
  unfoldable pub get_message : ForwardingProtocolMessage → Option (List ℕ)
  unfolding make_serde_packet header
  get_message (identification_message id) =
      some (make_serde_packet identification_message_type (identification_message id))
  get_message (forward_message ip server_port antenna_port) = none
  get_message (error_message error) =
      some (make_serde_packet error_message_type (error_message error))
  get_message (connection_close_message stream_id) =
      some (header connection_close_message_type 8 ++ be_bytes 8 stream_id)
  get_message (connection_data_message stream_id payload) = some (
      header connection_data_message_type (as_u32 (as_u32 (length payload) + 8))
      ++ (be_bytes 8 stream_id ++ payload))
  get_message forwarding_close_message =
      some (make_serde_packet forwarding_close_message_type forwarding_close_message)
  get_message keep_alive_message =
      some (make_serde_packet keepalive_message_type keep_alive_message)

  abbrev deserialized : ℕ → ForwardingProtocolMessage ⊎ String → Reading
  deserialized bytes_read (inl message) = ok (bytes_read, message)
  deserialized bytes_read (inr error) = err (serde_error error)

  unfoldable pub read_serde : ℕ → List ℕ → Reading
  read_serde packet_len payload =
      let bytes_read = header_len + packet_len in
      elim (slice header_len bytes_read payload) [
        | none ↦ panic
        | some body ↦ deserialized bytes_read (json.from_slice body)
      ]

  unfoldable pub read_connection_close : ℕ → List ℕ → Reading
  read_connection_close packet_len payload =
      if not (packet_len == 8)
      then err invalid_len
      else elim (slice header_len (header_len + 8) payload) [
        | none ↦ panic
        | some connection_id ↦ ok (header_len + 8, connection_close_message (from_be connection_id))
      ]

  -- The length of the payload is a usize that wraps around below zero.
  unfoldable pub read_connection_data : ℕ → List ℕ → Reading
  read_connection_data packet_len payload = elim (slice header_len (header_len + 8) payload) [
    | none ↦ panic
    | some connection_id ↦
        (let payload_bytes = (packet_len + 2 ^ 64 - 8) % 2 ^ 64 in
          let end = (header_len + 8 + payload_bytes) % 2 ^ 64 in
          elim (slice (header_len + 8) end payload) [
            | none ↦ panic
            | some message_value ↦
                ok (end, connection_data_message (from_be connection_id) message_value)
          ])
  ]

  -- The match on the type of the packet.
  unfoldable pub read_body : ℕ → ℕ → List ℕ → Reading
  unfolding read_serde read_connection_close read_connection_data
  read_body packet_type packet_len payload =
      if packet_type == identification_message_type
      then read_serde packet_len payload
      else if packet_type == forward_message_type
      then err wrong_packet_type
      else if packet_type == error_message_type
      then read_serde packet_len payload
      else if packet_type == connection_close_message_type
      then read_connection_close packet_len payload
      else if packet_type == connection_data_message_type
      then read_connection_data packet_len payload
      else if packet_type == forwarding_close_message_type
      then read_serde packet_len payload
      else if packet_type == keepalive_message_type
      then read_serde packet_len payload
      else err unknown_packet_type

  -- What follows the header.
  unfoldable pub read_packet : ℕ → ℕ → ℕ → List ℕ → Reading
  unfolding read_body
  read_packet packet_magic packet_type packet_len payload =
      if not (packet_magic == magic)
      then err bad_magic
      else if ltb 6 packet_type
      then err wrong_packet_type
      else if ltb (length payload) (packet_len + header_len)
      then if packet_type == identification_message_type && ltb 10_000 packet_len
        then err wrong_packet_type
        else err (slice_too_small (as_u32 (packet_len + header_len)) (as_u32 (length payload)))
      else read_body packet_type packet_len payload

  unfoldable pub read_message : List ℕ → Reading
  unfolding read_header read_packet
  read_message payload =
      if ltb (length payload) header_len then err invalid_len else elim (read_header payload) [
        | none ↦ panic
        | some (packet_magic, packet_type, packet_len) ↦
            read_packet packet_magic packet_type packet_len payload
      ]
