-- ===== src/PeerListener/Message.antt =====
-- rita_common/src/peer_listener/message.rs: the packets by which neighbours find each other.
-- A multicast `ImHere` holds an address as 8 segments; a `Hello` is written and read by bincode,
-- which is third-party code and a parameter. Sums of 16 bits wrap around, as in a release build.
use rita.Common.{
  ℕ, zero, suc, ◌+◌, ◌*◌, ◌/◌, ◌%◌, ◌^◌, Bool, ◌||◌, Option, none, some, List, [], ◌∷◌, ◌++◌, ltb,
  ◌==◌, if◌then◌else◌,
}
use rita.Common.Lists.{length, split_at}
use rita.Common.Bytes.{be_bytes}
use rita.Outcome.{ResultOf, ok, err, panic}
use rita.TunnelManager.{LocalIdentity}

pub data MessageError : Type 0 where
  invalid_payload_error buffer_underflow invalid_magic io_error : MessageError
  invalid_ip_address deserialization_error : MessageError

abbrev pub msg_im_here : ℕ
msg_im_here = 91

abbrev pub msg_im_here_len : ℕ
msg_im_here_len = 19

abbrev pub msg_hello : ℕ
msg_hello = 108

pub data PeerMessage : Type 0 where
  im_here : (addr : ℕ) → PeerMessage
  hello : (my_id : LocalIdentity) (response : Bool) (sender_wgport : ℕ) → PeerMessage

-- bincode: the bytes of a message, and a message from bytes; `none` is an error of it.
pub record Bincode : Type 0 where
  pub serialize : PeerMessage → Option (List ℕ)
  pub deserialize : List ℕ → Option PeerMessage

-- `is_unspecified`, `is_loopback` and `is_multicast` of an IPv6 address.
unfoldable pub is_invalid : ℕ → Bool
is_invalid addr = (addr == 0) || ((addr == 1) || (addr / 2 ^ 120 == 255))

unfoldable pub read_u16 : List ℕ → Option (ℕ × List ℕ)
read_u16 [] = none
read_u16 (a ∷ []) = none
read_u16 (a ∷ b ∷ xs) = some (a * 256 + b, xs)

-- The loop that reads the segments, the first of them the most significant one, and
-- `Ipv6Addr::new`.
unfoldable pub read_address : ℕ → ℕ → List ℕ → Option ℕ
unfolding read_u16
read_address zero addr xs = some addr
read_address (suc n) addr xs = elim (read_u16 xs) [
  | none ↦ none
  | some (segment, rest) ↦ read_address n (addr * 65536 + segment) rest
]

unfoldable pub decode_im_here : List ℕ → ResultOf MessageError PeerMessage
unfolding read_u16 read_address is_invalid
decode_im_here pointer = elim (read_u16 pointer) [
  | none ↦ err io_error
  | some (packet_size, rest) ↦
      if ltb packet_size msg_im_here_len
      then err buffer_underflow
      else elim (read_address 8 0 rest) [
        | none ↦ err io_error
        | some peer_address ↦
            if is_invalid peer_address then err invalid_ip_address else ok (im_here peer_address)
      ]
]

module _ (bincode : Bincode) where
  unfoldable pub encode_hello : PeerMessage → List ℕ
  encode_hello message = elim (bincode.serialize message) [
    | none ↦ []
    | some bytes ↦ msg_hello ∷ be_bytes 2 ((1 + 2 + length bytes % 2 ^ 16) % 2 ^ 16) ++ bytes
  ]

  unfoldable pub encode : PeerMessage → List ℕ
  unfolding encode_hello
  encode (im_here addr) = msg_im_here ∷ be_bytes 2 msg_im_here_len ++ be_bytes 16 addr
  encode (hello my_id response sender_wgport) = encode_hello (hello my_id response sender_wgport)

  -- The slice from the third byte on panics where the buffer is shorter.
  unfoldable pub decode_hello : List ℕ → List ℕ → ResultOf MessageError PeerMessage
  unfolding read_u16
  decode_hello buf pointer = elim (read_u16 pointer) [
    | none ↦ err io_error
    | some packet_size ↦ elim (split_at 3 buf) [
      | none ↦ panic
      | some (overhead, des_buf) ↦ elim (bincode.deserialize des_buf) [
        | none ↦ err deserialization_error
        | some message ↦ ok message
      ]
    ]
  ]

  unfoldable pub decode : List ℕ → ResultOf MessageError PeerMessage
  unfolding decode_im_here decode_hello
  decode [] = err invalid_payload_error
  decode (packet_magic ∷ pointer) =
      if packet_magic == msg_im_here
      then decode_im_here pointer
      else if packet_magic == msg_hello
      then decode_hello (packet_magic ∷ pointer) pointer
      else err invalid_magic
