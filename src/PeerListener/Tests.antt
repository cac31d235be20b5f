-- ===== src/PeerListener/Tests.antt =====
-- Examples of the messages between neighbours, with a codec that knows one kind of `Hello`.
use rita.Common.{
  ℕ, ◌≡◌, refl, sym, ap, Bool, true, false, Option, none, some, String, List, [], ◌∷◌, ◌⊎◌, ◌↔◌,
  arith,
}
use mathlib.Core.Option.{some-injective}
use rita.Common.Lists.{split_at}
use rita.Common.Bytes.{be_bytes}
use rita.Types.{IpAddr, v4, v6}
use rita.Samples.{alice}
use rita.Outcome.{ok, err}
use rita.PeerListener.Message.{
  PeerMessage, im_here, hello, Bincode, encode, decode, invalid_ip_address, io_error, msg_im_here,
  msg_hello,
}
use rita.PeerListener.Codec.{HoldsImHere, decode-encode, decode-ok}

abbrev hello_bytes : ℕ → Option Bool → IpAddr → ℕ → ℕ → Option String → Bool → ℕ → Option (List ℕ)
hello_bytes wg none (v6 ip) eth key none true port = some (wg ∷ ip ∷ eth ∷ key ∷ port ∷ [])
hello_bytes wg _ _ eth key _ _ port = none

abbrev to_bytes : PeerMessage → Option (List ℕ)
to_bytes (im_here addr) = some (addr ∷ [])
to_bytes (hello id response port) =
    hello_bytes id.wg_port id.have_tunnel id.global.mesh_ip id.global.eth_address
      id.global.wg_public_key id.global.nickname response port

abbrev from_bytes : List ℕ → Option PeerMessage
from_bytes (addr ∷ []) = some (im_here addr)
from_bytes (wg ∷ ip ∷ eth ∷ key ∷ port ∷ []) = some (
    hello
      (record {
        wg_port = wg;
        have_tunnel = none;
        global = record {
          mesh_ip = v6 ip;
          eth_address = eth;
          wg_public_key = key;
          nickname = none;
        };
      })
      true port)
from_bytes bytes = none

abbrev codec : Bincode
codec = record { serialize = to_bytes; deserialize = from_bytes }

hello_bytes_lem :
    (wg : ℕ) (have : Option Bool) (ip : IpAddr) (eth key : ℕ) (nick : Option String)
    (response : Bool) (port : ℕ) (bytes : List ℕ)
    → hello_bytes wg have ip eth key nick response port ≡ some bytes
    → from_bytes bytes
      ≡ some (
          hello
            (record {
              wg_port = wg;
              have_tunnel = have;
              global = record {
                mesh_ip = ip;
                eth_address = eth;
                wg_public_key = key;
                nickname = nick;
              };
            })
            response
            port)
hello_bytes_lem wg none (v6 ip) eth key none true port bytes e =
    sym (ap from_bytes (some-injective _ _ e))
hello_bytes_lem wg none (v6 ip) eth key none false port bytes e = ground (arith, e)
hello_bytes_lem wg none (v6 ip) eth key (some n) true port bytes e = ground (arith, e)
hello_bytes_lem wg none (v6 ip) eth key (some n) false port bytes e = ground (arith, e)
hello_bytes_lem wg none (v4 ip) eth key nick response port bytes e = ground (arith, e)
hello_bytes_lem wg (some h) ip eth key nick response port bytes e = ground (arith, e)

codec_reads :
    (m : PeerMessage) (bytes : List ℕ) → to_bytes m ≡ some bytes → from_bytes bytes ≡ some m
codec_reads (im_here addr) bytes e = sym (ap from_bytes (some-injective _ _ e))
codec_reads (hello id response port) bytes e =
    hello_bytes_lem id.wg_port id.have_tunnel id.global.mesh_ip id.global.eth_address
      id.global.wg_public_key id.global.nickname response port bytes e

abbrev greeting : PeerMessage
greeting = hello (record { wg_port = 60000; have_tunnel = none; global = alice }) true 60001

decode-encode_example : decode codec (encode codec greeting) ≡ ok greeting
decode-encode_example =
    decode-encode codec codec_reads greeting (60000 ∷ 1 ∷ 11 ∷ 21 ∷ 60001 ∷ [], refl)

-- A `Hello` that holds the `ImHere` of the loopback address is taken, whatever its size says.
hello_of_im_here : decode codec (msg_hello ∷ 0 ∷ 0 ∷ 1 ∷ []) ≡ ok (im_here 1)
unfolding decode split_at
hello_of_im_here = refl

im_here_loopback : decode codec (encode codec (im_here 1)) ≡ err invalid_ip_address
unfolding decode encode be_bytes
im_here_loopback = refl

im_here_short : decode codec (msg_im_here ∷ 0 ∷ 19 ∷ 1 ∷ []) ≡ err io_error
unfolding decode
im_here_short = refl

decode-ok_example : (decode codec (msg_hello ∷ 0 ∷ 0 ∷ 1 ∷ []) ≡ ok (im_here 1)) ↔ (
    ((addr : ℕ) × (xs : List ℕ) × (msg_hello ∷ 0 ∷ 0 ∷ 1 ∷ [] ≡ msg_im_here ∷ xs)
      × (im_here 1 ≡ im_here addr)
      × HoldsImHere xs addr)
    ⊎ ((a : ℕ) × (b : ℕ) × (xs : List ℕ) × (msg_hello ∷ 0 ∷ 0 ∷ 1 ∷ [] ≡ msg_hello ∷ a ∷ b ∷ xs)
        × (codec.deserialize xs ≡ some (im_here 1))))
decode-ok_example = decode-ok codec (msg_hello ∷ 0 ∷ 0 ∷ 1 ∷ []) (im_here 1)
