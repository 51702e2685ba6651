-- ===== src/Netfilter/Packets.antt =====
-- How the chains of openwrt/opensocks/src/netfilter.go treat a packet, read as nft documents it: the
-- first rule that matches decides, and the policy accepts.
use open_socks.Prelude.{
  ◌%◌, ◌&&◌, ℕ, Bool, true, false, not, Option, none, some, List, [], ◌∷◌, if◌then◌else◌, length,
  get_elem?, ◌==◌,
}
use open_socks.Netfilter.{
  Proto, tcp, udp, Dest, lan, not_lan, private, proxy_servers4, exclude4, svc_honor_direct4,
  domain4, include4, cn4, anywhere, Slot, slot1, slot2, slot3, Verdict, leave, to_port, spread,
  Rule, Table,
}

-- What of a packet the rules test: whether it came in on the LAN device, its protocol, its destination
-- port, and the sets that its destination lies in.
pub record Packet : Type 0 where
  pub from_lan : Bool
  pub proto : Proto
  pub dst_port : ℕ
  pub inside : Dest → Bool

abbrev pub dest_matches : Packet → Dest → Bool
dest_matches p lan = p.from_lan
dest_matches p not_lan = not p.from_lan
dest_matches p anywhere = true
dest_matches p private = p.inside private
dest_matches p proxy_servers4 = p.inside proxy_servers4
dest_matches p exclude4 = p.inside exclude4
dest_matches p svc_honor_direct4 = p.inside svc_honor_direct4
dest_matches p domain4 = p.inside domain4
dest_matches p include4 = p.inside include4
dest_matches p cn4 = p.inside cn4

abbrev pub same_proto : Proto → Proto → Bool
same_proto tcp tcp = true
same_proto udp udp = true
same_proto _ _ = false

abbrev pub proto_matches : Option Proto → Packet → Bool
proto_matches none p = true
proto_matches (some q) p = same_proto q p.proto

abbrev pub port_matches : Option ℕ → Packet → Bool
port_matches none p = true
port_matches (some n) p = p.dst_port == n

abbrev pub same_slot : Slot → Slot → Bool
same_slot slot1 slot1 = true
same_slot slot2 slot2 = true
same_slot slot3 slot3 = true
same_slot _ _ = false

-- The port of the chain that a slot names; none where no such chain exists.
unfoldable pub chain_port : List (Slot × ℕ) → Slot → Option ℕ
chain_port [] s = none
chain_port ((t, p) ∷ cs) s = let rest = chain_port cs s in if same_slot t s then some p else rest

-- The port that a verdict hands the packet to, with the number that nft draws or hashes.
unfoldable pub apply_verdict : List (Slot × ℕ) → ℕ → Verdict → Option ℕ
unfolding chain_port
apply_verdict chains pick leave = none
apply_verdict chains pick (to_port p) = some p
apply_verdict chains pick (spread slots) = elim (get_elem? slots (pick % length slots)) [
  | none ↦ none
  | some s ↦ chain_port chains s
]

unfoldable pub run_chain : List (Slot × ℕ) → ℕ → Packet → List Rule → Option ℕ
unfolding apply_verdict
run_chain chains pick p [] = none
run_chain chains pick p (r ∷ rs) =
    let rest = run_chain chains pick p rs in
    if port_matches r.port p && (proto_matches r.proto p && dest_matches p r.dest)
    then apply_verdict chains pick r.verdict
    else rest

-- The first chain of nat that redirects a packet decides.
abbrev pub or_next : Option ℕ → Option ℕ → Option ℕ
or_next (some n) next = some n
or_next none next = next

-- The port that nat redirects a packet to: `dns_capture` stands in front of `prerouting`.
unfoldable pub nat_target : Table → ℕ → Packet → Option ℕ
unfolding run_chain
nat_target t pick p =
    or_next (run_chain [] pick p t.dns_capture) (run_chain t.tcp_slots pick p t.prerouting)

-- The port that the mangle chain, which sees a packet before nat, hands it to with TPROXY.
unfoldable pub tproxy_target : Table → ℕ → Packet → Option ℕ
unfolding run_chain
tproxy_target t pick p = run_chain t.udp_slots pick p t.prerouting_udp
