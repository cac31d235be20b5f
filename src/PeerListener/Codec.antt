-- ===== src/PeerListener/Codec.antt =====
-- What the packets of rita_common/src/peer_listener/message.rs say once they are read.
use rita.Common.{
  ℕ, zero, suc, ◌+◌, ◌*◌, ◌/◌, ◌%◌, ◌^◌, ◌<◌, ◌≤◌, ◌≡◌, refl, sym, ap, ◌∙◌, ◌⊎◌, ◌↔◌, inl, inr,
  false, some, List, [], ◌∷◌, ◌++◌, ltb, ◌==◌, arith, Bool-cases, Option-cases,
}
use rita.Common.Lists.{length, split_at, ++_nil}
use rita.Common.Bytes.{be_bytes, from_be_onto, from_be, length-be_bytes, from_be-be_bytes}
use rita.Outcome.{ok}
use rita.PeerListener.Message.{
  PeerMessage, im_here, hello, Bincode, is_invalid, read_u16, read_address, decode_im_here,
  decode_hello, encode_hello, encode, decode, msg_im_here, msg_im_here_len, msg_hello,
}

read_address-bytes :
    (n addr : ℕ) (xs rest : List ℕ)
    → length xs ≡ n + n
    → read_address n addr (xs ++ rest) ≡ some (from_be_onto addr xs)
unfolding read_address read_u16 from_be_onto
read_address-bytes zero addr [] rest e = refl
read_address-bytes zero addr (x ∷ xs) rest e = ground (arith, e)
read_address-bytes (suc n) addr [] rest e = ground (arith, e)
read_address-bytes (suc n) addr (x ∷ []) rest e = ground (arith, e)
read_address-bytes (suc n) addr (x ∷ y ∷ xs) rest e =
    read_address-bytes n (addr * 65536 + (x * 256 + y)) xs rest (omega (arith, e))
    ∙ ap (λ a. some (from_be_onto a xs)) (omega arith)

-- The bytes that an address is read from.
read_address-split :
    (n addr a : ℕ) (xs : List ℕ)
    → read_address n addr xs ≡ some a
    → (octets : List ℕ) × (rest : List ℕ) × (xs ≡ octets ++ rest)
      × (length octets ≡ n + n)
      × (a ≡ from_be_onto addr octets)
unfolding read_address read_u16 from_be_onto
read_address-split zero addr a xs e = ([], xs, refl, refl, ground (arith, e))
read_address-split (suc n) addr a [] e = ground (arith, e)
read_address-split (suc n) addr a (x ∷ []) e = ground (arith, e)
read_address-split (suc n) addr a (x ∷ y ∷ xs) e =
    let (octets, rest, same, long, value) =
      read_address-split n (addr * 65536 + (x * 256 + y)) a xs e in
    (
      x ∷ y ∷ octets,
      rest,
      ap (λ zs. x ∷ y ∷ zs) same,
      omega (arith, long),
      value ∙ ap (λ z. from_be_onto z octets) (omega arith),
    )

-- Fits 16 octets and is an address that `decode` takes.
abbrev pub IsUsable : ℕ → Type 0
IsUsable addr = (addr < 2 ^ 128) × (is_invalid addr ≡ false)

-- `encode` has bytes for the message, and `decode` takes its address.
abbrev pub IsSendable : Bincode → PeerMessage → Type 0
IsSendable bincode (im_here addr) = IsUsable addr
IsSendable bincode (hello my_id response sender_wgport) =
    (bytes : List ℕ) × (bincode.serialize (hello my_id response sender_wgport) ≡ some bytes)

read_address-be_bytes :
    (addr : ℕ) → addr < 2 ^ 128 → read_address 8 0 (be_bytes 16 addr) ≡ some addr
read_address-be_bytes addr h =
    ap (read_address 8 0) (sym (++_nil (be_bytes 16 addr)))
    ∙ read_address-bytes 8 0 (be_bytes 16 addr) [] (length-be_bytes 16 addr)
    ∙ ap some (from_be-be_bytes 16 addr h)

decode_im_here-frame :
    (a b addr : ℕ) (xs : List ℕ)
    → 19 ≤ a * 256 + b
    → read_address 8 0 xs ≡ some addr
    → is_invalid addr ≡ false
    → decode_im_here (a ∷ b ∷ xs) ≡ ok (im_here addr)
unfolding decode_im_here read_u16
decode_im_here-frame a b addr xs size e valid = ground (arith, size, e, valid)

be_bytes_19 : be_bytes 2 msg_im_here_len ≡ 0 ∷ 19 ∷ []
unfolding be_bytes
be_bytes_19 = refl

be_bytes_2 : (x : ℕ) → be_bytes 2 x ≡ (x / 256) % 256 ∷ x % 256 ∷ []
unfolding be_bytes
be_bytes_2 x = refl

decode_hello-bytes :
    (bincode : Bincode) (a b : ℕ) (bytes : List ℕ) (m : PeerMessage)
    → bincode.deserialize bytes ≡ some m
    → decode bincode (msg_hello ∷ a ∷ b ∷ bytes) ≡ ok m
unfolding decode decode_hello read_u16 split_at
decode_hello-bytes bincode a b bytes m e = ground (arith, e)

decode_hello-encode :
    (bincode : Bincode) (m : PeerMessage) (bytes : List ℕ)
    → bincode.serialize m ≡ some bytes
    → bincode.deserialize bytes ≡ some m
    → decode bincode (encode_hello bincode m) ≡ ok m
unfolding encode_hello
decode_hello-encode bincode m bytes e d = ground (
  arith,
  e,
  be_bytes_2 ((1 + 2 + length bytes % 2 ^ 16) % 2 ^ 16),
  decode_hello-bytes bincode (((1 + 2 + length bytes % 2 ^ 16) % 2 ^ 16 / 256) % 256)
      ((1 + 2 + length bytes % 2 ^ 16) % 2 ^ 16 % 256) bytes m d,
)

-- The bytes behind the number of an `ImHere` of the address: a size of at least 19, and the 16
-- octets of the address, which is none of the refused ones. What follows is not read.
abbrev pub HoldsImHere : List ℕ → ℕ → Type 0
HoldsImHere xs addr =
    (a : ℕ) × (b : ℕ) × (octets : List ℕ) × (rest : List ℕ) × (xs ≡ a ∷ b ∷ octets ++ rest)
    × (length octets ≡ 16)
    × (19 ≤ a * 256 + b)
    × (addr ≡ from_be octets)
    × (is_invalid addr ≡ false)

decode_im_here-ok :
    (xs : List ℕ) (m : PeerMessage)
    → decode_im_here xs ≡ ok m
    → (addr : ℕ) × (m ≡ im_here addr) × HoldsImHere xs addr
unfolding decode_im_here read_u16
decode_im_here-ok [] m e = ground (arith, e)
decode_im_here-ok (a ∷ []) m e = ground (arith, e)
decode_im_here-ok (a ∷ b ∷ xs) m e = elim (Bool-cases (ltb (a * 256 + b) 19)) [
  | inl h ↦ ground (arith, e, h)
  | inr h ↦ elim (Option-cases (read_address 8 0 xs)) [
    | inl r ↦ ground (arith, e, h, r)
    | inr (addr, r) ↦ elim (Bool-cases (is_invalid addr)) [
      | inl v ↦ ground (arith, e, h, r, v)
      | inr v ↦
          let (octets, rest, same, long, value) = read_address-split 8 0 addr xs r in
          (
            addr,
            ground (arith, e, h, r, v),
            (a, b, octets, rest, ap (λ zs. a ∷ b ∷ zs) same, long, ground (arith, h), value, v),
          )
    ]
  ]
]

decode_im_here-holds :
    (xs : List ℕ) (addr : ℕ) → HoldsImHere xs addr → decode_im_here xs ≡ ok (im_here addr)
decode_im_here-holds xs addr (a, b, octets, rest, same, long, size, value, valid) =
    ap decode_im_here same
    ∙ decode_im_here-frame a b addr (octets ++ rest) size
        (read_address-bytes 8 0 octets rest long ∙ ap some (sym value)) valid

decode_hello-ok :
    (bincode : Bincode) (x : ℕ) (xs : List ℕ) (m : PeerMessage)
    → decode_hello bincode (x ∷ xs) xs ≡ ok m
    → (a : ℕ) × (b : ℕ) × (ys : List ℕ) × (xs ≡ a ∷ b ∷ ys) × (bincode.deserialize ys ≡ some m)
unfolding decode_hello read_u16 split_at
decode_hello-ok bincode x [] m e = ground (arith, e)
decode_hello-ok bincode x (a ∷ []) m e = ground (arith, e)
decode_hello-ok bincode x (a ∷ b ∷ ys) m e = elim (Option-cases (bincode.deserialize ys)) [
  | inl h ↦ ground (arith, e, h)
  | inr (n, h) ↦ (a, b, ys, refl, ground (arith, e, h))
]

pub encode-im_here :
    (bincode : Bincode) (addr : ℕ)
    → encode bincode (im_here addr) ≡ msg_im_here ∷ 0 ∷ 19 ∷ be_bytes 16 addr
unfolding encode decode
encode-im_here bincode addr = ap (λ xs. msg_im_here ∷ xs ++ be_bytes 16 addr) be_bytes_19

-- Where bincode reads back what it has written, an `ImHere` of an address of 16 octets that is none
-- of the unspecified, the loopback and the multicast ones, and a `Hello` that bincode can write,
-- are decoded from their encoding as they were.
pub decode-encode :
    (bincode : Bincode)
    → ((m : PeerMessage) (bytes : List ℕ)
        → bincode.serialize m ≡ some bytes
        → bincode.deserialize bytes ≡ some m)
    → (m : PeerMessage) → IsSendable bincode m
    → decode bincode (encode bincode m) ≡ ok m
unfolding encode decode
decode-encode bincode reads (im_here addr) (small, valid) =
    ap (decode bincode) (encode-im_here bincode addr)
    ∙ decode_im_here-frame 0 19 addr (be_bytes 16 addr) (omega arith)
        (read_address-be_bytes addr small) valid
decode-encode bincode reads (hello my_id response sender_wgport) (bytes, e) =
    decode_hello-encode bincode (hello my_id response sender_wgport) bytes e (reads _ bytes e)

decode-im_here :
    (bincode : Bincode) (xs : List ℕ) → decode bincode (msg_im_here ∷ xs) ≡ decode_im_here xs
unfolding decode
decode-im_here bincode xs = refl

decode-cases :
    (bincode : Bincode) (buf : List ℕ) (m : PeerMessage)
    → decode bincode buf ≡ ok m
    → ((addr : ℕ) × (xs : List ℕ) × (buf ≡ msg_im_here ∷ xs)
        × (m ≡ im_here addr)
        × HoldsImHere xs addr)
      ⊎ ((a : ℕ) × (b : ℕ) × (xs : List ℕ) × (buf ≡ msg_hello ∷ a ∷ b ∷ xs)
          × (bincode.deserialize xs ≡ some m))
unfolding decode
decode-cases bincode [] m e = ground (arith, e)
decode-cases bincode (x ∷ xs) m e = elim (Bool-cases (x == msg_im_here)) [
  | inl h ↦
      (let (addr, kind, holds) = decode_im_here-ok xs m (ground (arith, e, h)) in
        inl (addr, xs, ap (λ y. y ∷ xs) (ground (arith, h)), kind, holds))
  | inr h ↦ elim (Bool-cases (x == msg_hello)) [
    | inl k ↦
        (let (a, b, ys, same, des) = decode_hello-ok bincode x xs m (ground (arith, e, h, k)) in
          inr
            (a, b, ys, ap (λ y. y ∷ xs) (ground (arith, k)) ∙ ap (λ zs. msg_hello ∷ zs) same, des))
    | inr k ↦ ground (arith, e, h, k)
  ]
]

-- A buffer is decoded as a message exactly in two cases. In the first it starts with the number of an
-- `ImHere`, a size of at least 19 and 16 octets follow, and the message is the `ImHere` of the
-- address that these octets are, which is none of the unspecified, the loopback and the multicast
-- ones. In the second it starts with the number of a `Hello`, and the message is whatever bincode
-- reads from the bytes after the third, be it an `ImHere`, of any address, and whatever the two
-- bytes of the size say.
pub decode-ok :
    (bincode : Bincode) (buf : List ℕ) (m : PeerMessage)
    → (decode bincode buf ≡ ok m) ↔ (
        ((addr : ℕ) × (xs : List ℕ) × (buf ≡ msg_im_here ∷ xs)
          × (m ≡ im_here addr)
          × HoldsImHere xs addr)
        ⊎ ((a : ℕ) × (b : ℕ) × (xs : List ℕ) × (buf ≡ msg_hello ∷ a ∷ b ∷ xs)
            × (bincode.deserialize xs ≡ some m)))
decode-ok bincode buf m = (
  decode-cases bincode buf m,
  (λ given. elim given [
    | inl (addr, xs, same, kind, holds) ↦
        ap (decode bincode) same
        ∙ decode-im_here bincode xs
        ∙ decode_im_here-holds xs addr holds
        ∙ ap ok (sym kind)
    | inr (a, b, xs, same, read) ↦
        ap (decode bincode) same ∙ decode_hello-bytes bincode a b xs m read
  ]),
)
