-- ===== src/Forwarding/Header.antt =====
-- The header of a packet of antenna_forwarding_protocol/src/lib.rs, written and read.
use rita.Common.{ℕ, ◌+◌, ◌≡◌, ◌≤◌, ◌<◌, refl, sym, ap, ◌∙◌, some, List, [], ◌++◌, arith}
use rita.Common.Lists.{length, length-++, ++_assoc}
use rita.Common.Bytes.{
  be_bytes, from_be, slice, capacity, length-be_bytes, from_be-be_bytes, slice-middle,
}
use rita.Forwarding.{
  header, read_header, header_len, magic, Json, read_message, read_packet, read_body,
}

pub length-header : (t n : ℕ) → length (header t n) ≡ header_len
unfolding header
length-header t n = omega (
  arith,
  length-++ (be_bytes 16 magic) (be_bytes 2 t ++ be_bytes 4 n),
  length-++ (be_bytes 2 t) (be_bytes 4 n),
  length-be_bytes 16 magic,
  length-be_bytes 2 t,
  length-be_bytes 4 n,
)

header-split :
    (t n : ℕ) (body : List ℕ)
    → header t n ++ body ≡ be_bytes 16 magic ++ (be_bytes 2 t ++ (be_bytes 4 n ++ body))
unfolding header
header-split t n body =
    ++_assoc (be_bytes 16 magic) (be_bytes 2 t ++ be_bytes 4 n) body
    ∙ ap (λ bytes. be_bytes 16 magic ++ bytes) (++_assoc (be_bytes 2 t) (be_bytes 4 n) body)

slice-magic : (t n : ℕ) (body : List ℕ) → slice 0 16 (header t n ++ body) ≡ some (be_bytes 16 magic)
slice-magic t n body =
    ap (slice 0 16) (header-split t n body)
    ∙ slice-middle 0 16 [] (be_bytes 16 magic) (be_bytes 2 t ++ (be_bytes 4 n ++ body)) refl
        (omega (arith, length-be_bytes 16 magic))

slice-packet_type :
    (t n : ℕ) (body : List ℕ) → slice 16 18 (header t n ++ body) ≡ some (be_bytes 2 t)
slice-packet_type t n body =
    ap (slice 16 18) (header-split t n body)
    ∙ slice-middle 16 18 (be_bytes 16 magic) (be_bytes 2 t) (be_bytes 4 n ++ body)
        (sym (length-be_bytes 16 magic)) (omega (arith, length-be_bytes 2 t))

slice-packet_len :
    (t n : ℕ) (body : List ℕ) → slice 18 header_len (header t n ++ body) ≡ some (be_bytes 4 n)
slice-packet_len t n body =
    ap (slice 18 22) (
      header-split t n body
      ∙ sym (++_assoc (be_bytes 16 magic) (be_bytes 2 t) (be_bytes 4 n ++ body)))
    ∙ slice-middle 18 22 (be_bytes 16 magic ++ be_bytes 2 t) (be_bytes 4 n) body
        (omega (
          arith,
          length-++ (be_bytes 16 magic) (be_bytes 2 t),
          length-be_bytes 16 magic,
          length-be_bytes 2 t,
        ))
        (omega (arith, length-be_bytes 4 n))

read_header-slices :
    (payload a b c : List ℕ)
    → slice 0 16 payload ≡ some a
    → slice 16 18 payload ≡ some b
    → slice 18 header_len payload ≡ some c
    → read_header payload ≡ some (from_be a, from_be b, from_be c)
unfolding read_header
read_header-slices payload a b c h k l = ground (arith, h, k, l)

-- The numbers of a header are those that it was made of.
pub read_header-header :
    (t n : ℕ) (body : List ℕ)
    → t < capacity 2
    → n < capacity 4
    → read_header (header t n ++ body) ≡ some (magic, t, n)
read_header-header t n body h k =
    read_header-slices (header t n ++ body) (be_bytes 16 magic) (be_bytes 2 t) (be_bytes 4 n)
      (slice-magic t n body) (slice-packet_type t n body) (slice-packet_len t n body)
    ∙ rw (from_be-be_bytes 16 magic (omega arith), from_be-be_bytes 2 t h, from_be-be_bytes 4 n k)
        refl

-- A slice of a packet that starts behind the header.
pub slice-body :
    (t n b : ℕ) (body rest : List ℕ)
    → b ≡ header_len + length body
    → slice header_len b (header t n ++ (body ++ rest)) ≡ some body
slice-body t n b body rest h =
    slice-middle header_len b (header t n) body rest (sym (length-header t n)) h

-- The two slices of a body whose first part has a fixed length.
pub body-slices :
    (t n k : ℕ) (front value rest : List ℕ)
    → k ≡ length front
    → n ≡ k + length value
    → (slice header_len (header_len + k) (header t n ++ ((front ++ value) ++ rest)) ≡ some front)
      × (slice (header_len + k) (header_len + n) (header t n ++ ((front ++ value) ++ rest))
          ≡ some value)
body-slices t n k front value rest h e =
    let split = ap (λ bytes. header t n ++ bytes) (++_assoc front value rest) in
    (
      ap (slice header_len (header_len + k)) split
          ∙ slice-body t n (header_len + k) front (value ++ rest) (omega arith),
      ap (slice (header_len + k) (header_len + n))
            (split ∙ sym (++_assoc (header t n) front (value ++ rest)))
          ∙ slice-middle (header_len + k) (header_len + n) (header t n ++ front) value rest
              (omega (arith, length-++ (header t n) front, length-header t n)) (omega arith),
    )

-- A packet of which nothing is missing is read by its type.
pub read_message-whole :
    (json : Json) (t n : ℕ) (payload : List ℕ)
    → read_header payload ≡ some (magic, t, n)
    → t ≤ 6
    → n + header_len ≤ length payload
    → read_message json payload ≡ read_body json t n payload
unfolding read_message read_packet
read_message-whole json t n payload e h m = ground (arith, e)

pub read_message-header :
    (json : Json) (t n : ℕ) (body : List ℕ)
    → t ≤ 6
    → n < capacity 4
    → n ≤ length body
    → read_message json (header t n ++ body) ≡ read_body json t n (header t n ++ body)
read_message-header json t n body h k m =
    read_message-whole json t n (header t n ++ body) (read_header-header t n body (omega arith) k) h
      (omega (arith, length-++ (header t n) body, length-header t n))
