-- ===== src/SpeedTest/Socks.antt =====
-- The SOCKS5 client of openwrt/opensocks/src/speedtest.go, socksDialPort, on the bytes of the connection:
-- `sent` is what it writes after the greeting, and the input is what the helper writes. A failing dial
-- or write is left out.
use open_socks.Prelude.{
  ℕ, ◌+◌, ◌*◌, ◌/◌, ◌%◌, ◌<◌, ◌≡◌, refl, subst, ap, ◌∙◌, ◌&&◌, Option, none, some, [], ◌∷◌, ◌++◌,
  arith, ◌==◌, if◌then◌else◌, length, length-append, take, drop, take_append, drop_append, Bytes,
  Result, ok, err,
}

pub data SocksError : Type 0 where
  negotiation_failed bad_address connect_failed : SocksError

abbrev pub greeting : Bytes
greeting = 5 ∷ 1 ∷ 0 ∷ []

-- binary.BigEndian.PutUint16(p, uint16(port))
abbrev pub be16 : ℕ → Bytes
be16 port = ((port / 256) % 256) ∷ (port % 256) ∷ []

-- The request for a host and a port.
unfoldable pub connect_request : Bytes → ℕ → Bytes
connect_request host port = 5 ∷ 1 ∷ 0 ∷ 3 ∷ (length host % 256) ∷ (host ++ be16 port)

-- The input behind the two bytes of the negotiation.
abbrev pub negotiated : Bytes → Option Bytes
negotiated (a ∷ (b ∷ rest)) = if b == 0 then some rest else none
negotiated _ = none

-- io.CopyN to io.Discard, which stops at the end of the input.
abbrev pub after_address : ℕ → Bytes → Bytes
after_address n rest = drop (n + 2) rest

-- The length of the address in the reply, by its type; that of a name is its first byte, zero where
-- there is none.
abbrev pub after_reply : ℕ → Bytes → Bytes
after_reply kind rest =
    if kind == 1
    then after_address 4 rest
    else if kind == 4
    then after_address 16 rest
    else if kind == 3
    then elim rest [ [] ↦ [] | n ∷ more ↦ after_address n more ]
    else after_address 0 rest

-- The input behind the reply.
abbrev pub connected : Bytes → Option Bytes
connected (v ∷ (code ∷ (r ∷ (kind ∷ rest)))) =
    if code == 0 then some (after_reply kind rest) else none
connected _ = none

abbrev pub handed : Bytes → Option Bytes → Result SocksError (Bytes × Bytes)
handed sent none = err connect_failed
handed sent (some left) = ok (sent, left)

-- What follows the negotiation; the result is what was sent and the input that is left for the caller.
abbrev pub after_negotiation : Option (Bytes × ℕ) → Option Bytes → Result SocksError (Bytes × Bytes)
after_negotiation address none = err negotiation_failed
after_negotiation none (some rest) = err bad_address
after_negotiation (some (host, port)) (some rest) =
    handed (connect_request host port) (connected rest)

-- The address is what net.SplitHostPort and fmt.Sscan made of it.
unfoldable pub socks_dial_port : Option (Bytes × ℕ) → Bytes → Result SocksError (Bytes × Bytes)
unfolding connect_request
socks_dial_port address input = after_negotiation address (negotiated input)

-- A SOCKS5 server's reading of a request for a named host.
abbrev pub name_and_port : Bytes → Bytes → Option (Bytes × ℕ)
name_and_port host (hi ∷ (lo ∷ rest)) = some (host, hi * 256 + lo)
name_and_port host _ = none

abbrev pub read_name : ℕ → Bytes → Option (Bytes × ℕ)
read_name n b = name_and_port (take n b) (drop n b)

abbrev pub read_request : Bytes → Option (Bytes × ℕ)
read_request (v ∷ (command ∷ (r ∷ (kind ∷ (n ∷ b))))) =
    if (v == 5) && ((command == 1) && (kind == 3)) then read_name n b else none
read_request _ = none

-- The reply of a server: an address of four or sixteen bytes, or a name with its length, and a port.
pub data BoundAddress : Type 0 where
  ipv4 ipv6 name : Bytes → BoundAddress

abbrev pub reply : BoundAddress → Bytes → Bytes
reply (ipv4 a) port = 5 ∷ 0 ∷ 0 ∷ 1 ∷ (a ++ port)
reply (ipv6 a) port = 5 ∷ 0 ∷ 0 ∷ 4 ∷ (a ++ port)
reply (name a) port = 5 ∷ 0 ∷ 0 ∷ 3 ∷ length a ∷ (a ++ port)

abbrev pub IsWellSized : BoundAddress → Type 0
IsWellSized (ipv4 a) = length a ≡ 4
IsWellSized (ipv6 a) = length a ≡ 16
IsWellSized (name a) = Unit {0}

skip_exact :
    (n : ℕ) (a p payload : Bytes)
    → length a ≡ n
    → length p ≡ 2
    → after_address n ((a ++ p) ++ payload) ≡ payload
skip_exact n a p payload h k =
    subst (λ m. drop m ((a ++ p) ++ payload) ≡ payload) (length-append a p ∙ omega (arith, h, k))
      (drop_append (a ++ p) payload)

reply_exact :
    (a : BoundAddress) (p payload : Bytes)
    → IsWellSized a
    → length p ≡ 2
    → connected (reply a p ++ payload) ≡ some payload
reply_exact (ipv4 a) p payload h k = ap some (skip_exact 4 a p payload h k)
reply_exact (ipv6 a) p payload h k = ap some (skip_exact 16 a p payload h k)
reply_exact (name a) p payload h k = ap some (skip_exact (length a) a p payload refl k)

low_byte : (n : ℕ) → n < 256 → n % 256 ≡ n
low_byte n h = omega (arith, h)

port_back : (port : ℕ) → port < 65536 → ((port / 256) % 256) * 256 + port % 256 ≡ port
port_back port h = omega (arith, h)

name_back :
    (host : Bytes) (port : ℕ)
    → port < 65536
    → read_name (length host) (host ++ be16 port) ≡ some (host, port)
name_back host port h =
    rw (take_append host (be16 port), drop_append host (be16 port))
      (ap (λ n. some (host, n)) (port_back port h))

request_back :
    (host : Bytes) (port : ℕ)
    → length host < 256
    → port < 65536
    → read_request (connect_request host port) ≡ some (host, port)
unfolding connect_request
request_back host port h k = rw (low_byte (length host) h) (name_back host port k)

-- For a host of less than 256 bytes and a 16-bit port: a SOCKS5 server reads the host and the port back from the request, and when it accepts with any of the three kinds of address in its reply, the connection is handed over exactly at the first byte behind the reply.
pub socks_dial_port-Exact :
    (host : Bytes) (port : ℕ) (a : BoundAddress) (p payload : Bytes)
    → length host < 256
    → port < 65536
    → IsWellSized a
    → length p ≡ 2
    → (socks_dial_port (some (host, port)) (5 ∷ 0 ∷ (reply a p ++ payload))
        ≡ ok (connect_request host port, payload))
      × (read_request (connect_request host port) ≡ some (host, port))
unfolding socks_dial_port
socks_dial_port-Exact host port a p payload h k w n = (
  ap (handed (connect_request host port)) (reply_exact a p payload w n),
  request_back host port h k,
)
