-- ===== src/Netfilter/Routing.antt =====
-- Where the rules of openwrt/opensocks/src/netfilter.go send a packet.
use open_socks.Prelude.{
  ℕ, zero, suc, ◌%◌, ◌≤◌, ◌≡◌, refl, ap, ◌∙◌, ◌⊎◌, inl, inr, Bool-cases, Bool, true, false, not,
  ◌&&◌, ◌||◌, Option, none, some, List, [], ◌∷◌, arith, if◌then◌else◌, get_elem?, Bytes, ◌==◌,
}
use open_socks.Netfilter.{
  Proto, tcp, udp, private, proxy_servers4, exclude4, svc_honor_direct4, domain4, include4, cn4,
  dns_capture_rules, Slot, slot1, slot2, slot3, redirect, slot_chains, some_proxies,
  prerouting_rules, Plan, build_table, mixed_port, dual_port, triple_port,
}
use open_socks.Netfilter.Packets.{
  Packet, same_proto, chain_port, apply_verdict, run_chain, or_next, nat_target, tproxy_target,
}

-- The port of the session with this index.
abbrev pub session_port : ℕ → ℕ
session_port zero = mixed_port
session_port (suc zero) = dual_port
session_port _ = triple_port

-- A packet that is to reach a proxy process: from the LAN, neither to a private address nor to a proxy server, and in smart mode to a destination that is not excluded and lies in one of the sets.
unfoldable pub wanted : Plan → Packet → Bool
wanted plan p =
    p.from_lan
    && not (p.inside private)
    && not (some_proxies plan.proxies && p.inside proxy_servers4)
    && (plan.is_global
        || (not (p.inside exclude4)
            && (p.inside svc_honor_direct4
                || (p.inside domain4 || (p.inside include4 || p.inside cn4)))))

-- A packet that the router's own resolver takes: in smart mode, from the LAN to port 53.
unfoldable pub captured : Plan → Packet → Bool
captured plan p = not plan.is_global && ((p.dst_port == 53) && p.from_lan)

below_2 : (n : ℕ) → (n % 2 ≡ 0) ⊎ (n % 2 ≡ 1)
below_2 n = ground arith

below_3 : (n : ℕ) → (n % 3 ≡ 0) ⊎ ((n % 3 ≡ 1) ⊎ (n % 3 ≡ 2))
below_3 n = ground arith

spread_2 :
    (m : ℕ)
    → (m ≡ 0) ⊎ (m ≡ 1)
    → (elim (get_elem? (slot1 ∷ slot2 ∷ []) m) [
      | none ↦ none
      | some s ↦ chain_port (slot_chains 2) s
    ])
      ≡ some (session_port m)
unfolding slot_chains chain_port
spread_2 m (inl e) = rw e refl
spread_2 m (inr e) = rw e refl

spread_3 :
    (m : ℕ)
    → (m ≡ 0) ⊎ ((m ≡ 1) ⊎ (m ≡ 2))
    → (elim (get_elem? (slot1 ∷ slot2 ∷ slot3 ∷ []) m) [
      | none ↦ none
      | some s ↦ chain_port (slot_chains 3) s
    ])
      ≡ some (session_port m)
unfolding slot_chains chain_port
spread_3 m (inl e) = rw e refl
spread_3 m (inr (inl e)) = rw e refl
spread_3 m (inr (inr e)) = rw e refl

apply_redirect :
    (count pick : ℕ)
    → 1 ≤ count
    → count ≤ 3
    → apply_verdict (slot_chains count) pick (redirect count) ≡ some (session_port (pick % count))
unfolding apply_verdict redirect
apply_redirect zero pick l u = ground arith
apply_redirect (suc zero) pick l u = let e : pick % 1 ≡ 0 = ground arith in rw e refl
apply_redirect (suc (suc zero)) pick l u = spread_2 (pick % 2) (below_2 pick)
apply_redirect (suc (suc (suc zero))) pick l u = spread_3 (pick % 3) (below_3 pick)
apply_redirect (suc (suc (suc (suc n)))) pick l u = ground arith

-- The rules behind the exceptions, over any answers of the tests.
abbrev tail : {A : Type 0} → A → A → Bool → Bool → Bool → Bool → Bool → Bool → A
tail on off gl ex ho dm inc cn =
    if gl
    then on
    else if ex
    then off
    else if ho
    then on
    else if dm
    then on
    else if inc
    then on
    else if cn
    then on
    else off

tail_lem :
    {A : Type 0} (on off : A) (gl ex ho dm inc cn : Bool)
    → tail on off gl ex ho dm inc cn
      ≡ (if gl || (not ex && (ho || (dm || (inc || cn)))) then on else off)
tail_lem on off true ex ho dm inc cn = refl
tail_lem on off false true ho dm inc cn = refl
tail_lem on off false false true dm inc cn = refl
tail_lem on off false false false true inc cn = refl
tail_lem on off false false false false true cn = refl
tail_lem on off false false false false false true = refl
tail_lem on off false false false false false false = refl

chain_lem :
    {A : Type 0} (on off : A) (fl pr sp px gl ex ho dm inc cn : Bool)
    → (if not fl
        then off
        else if pr
        then off
        else if sp && px
        then off
        else tail on off gl ex ho dm inc cn)
      ≡ (if fl && not pr && not (sp && px) && (gl || (not ex && (ho || (dm || (inc || cn)))))
          then on
          else off)
chain_lem on off false pr sp px gl ex ho dm inc cn = refl
chain_lem on off true true sp px gl ex ho dm inc cn = refl
chain_lem on off true false true true gl ex ho dm inc cn = refl
chain_lem on off true false true false gl ex ho dm inc cn = tail_lem on off gl ex ho dm inc cn
chain_lem on off true false false px gl ex ho dm inc cn = tail_lem on off gl ex ho dm inc cn

abbrev sent : List (Slot × ℕ) → ℕ → ℕ → Option ℕ
sent chains pick count = apply_verdict chains pick (redirect count)

run-prerouting :
    (gl : Bool) (proxies : List Bytes) (q : Proto) (count pick : ℕ) (chains : List (Slot × ℕ))
    (p : Packet)
    → same_proto q p.proto ≡ true
    → run_chain chains pick p (prerouting_rules gl proxies q count) ≡ (
        if not p.from_lan
        then none
        else if p.inside private
        then none
        else if some_proxies proxies && p.inside proxy_servers4
        then none
        else tail
            (sent chains pick count)
            none
            gl
            (p.inside exclude4)
            (p.inside svc_honor_direct4)
            (p.inside domain4)
            (p.inside include4)
            (p.inside cn4))
unfolding run_chain prerouting_rules
run-prerouting true [] q count pick chains p e = rw e refl
run-prerouting false [] q count pick chains p e = rw e refl
run-prerouting true (_ ∷ _) q count pick chains p e = rw e refl
run-prerouting false (_ ∷ _) q count pick chains p e = rw e refl

run-wanted :
    (plan : Plan) (q : Proto) (pick : ℕ) (p : Packet)
    → same_proto q p.proto ≡ true
    → 1 ≤ plan.session_count
    → plan.session_count ≤ 3
    → run_chain
        (slot_chains plan.session_count)
        pick
        p
        (prerouting_rules plan.is_global plan.proxies q plan.session_count)
      ≡ (if wanted plan p then some (session_port (pick % plan.session_count)) else none)
unfolding wanted
run-wanted plan q pick p e l u =
    run-prerouting plan.is_global plan.proxies q plan.session_count pick
      (slot_chains plan.session_count) p e
    ∙ chain_lem (sent (slot_chains plan.session_count) pick plan.session_count) none p.from_lan
        (p.inside private) (some_proxies plan.proxies) (p.inside proxy_servers4) plan.is_global
        (p.inside exclude4) (p.inside svc_honor_direct4) (p.inside domain4) (p.inside include4)
        (p.inside cn4)
    ∙ ap (λ r. if wanted plan p then r else none) (apply_redirect plan.session_count pick l u)

off_if : (off : Option ℕ) (b : Bool) (o : Option ℕ) → o ≡ off → (if b then off else o) ≡ off
off_if off true o h = refl
off_if off false o h = h

all_off :
    (off : Option ℕ) (a b c : Bool)
    → (if a then off else if b then off else if c then off else off) ≡ off
all_off off true b c = refl
all_off off false true c = refl
all_off off false false true = refl
all_off off false false false = refl

-- The rules of one protocol leave a packet of the other alone.
run-other :
    (gl : Bool) (proxies : List Bytes) (q : Proto) (count pick : ℕ) (chains : List (Slot × ℕ))
    (p : Packet)
    → same_proto q p.proto ≡ false
    → run_chain chains pick p (prerouting_rules gl proxies q count) ≡ none
unfolding run_chain prerouting_rules apply_verdict
run-other true [] q count pick chains p e =
    rw e (all_off none (not p.from_lan) (p.inside private) false)
run-other true (_ ∷ _) q count pick chains p e =
    rw e (all_off none (not p.from_lan) (p.inside private) (p.inside proxy_servers4))
run-other false [] q count pick chains p e =
    rw e (all_off none (not p.from_lan) (p.inside private) (p.inside exclude4))
run-other false (_ ∷ _) q count pick chains p e = rw e (
    off_if none (not p.from_lan) _
      (all_off none (p.inside private) (p.inside proxy_servers4) (p.inside exclude4)))

run-any :
    (plan : Plan) (q : Proto) (pick : ℕ) (p : Packet)
    → 1 ≤ plan.session_count
    → plan.session_count ≤ 3
    → run_chain
        (slot_chains plan.session_count)
        pick
        p
        (prerouting_rules plan.is_global plan.proxies q plan.session_count)
      ≡ (if same_proto q p.proto && wanted plan p
          then some (session_port (pick % plan.session_count))
          else none)
run-any plan q pick p l u = elim (Bool-cases (same_proto q p.proto)) [
  | inl e ↦ rw e (run-wanted plan q pick p e l u)
  | inr e ↦ rw e (
      run-other plan.is_global plan.proxies q plan.session_count pick
        (slot_chains plan.session_count) p e)
]

proto_cases :
    (q : Proto)
    → (same_proto udp q ≡ true) ⊎ ((same_proto udp q ≡ false) × (same_proto tcp q ≡ true))
proto_cases tcp = inr (refl, refl)
proto_cases udp = inl refl

-- The two rules of `dns_capture`, over any answers of the tests.
capture_lem :
    {A : Type 0} (on off : A) (t u l : Bool)
    → (u ≡ true) ⊎ ((u ≡ false) × (t ≡ true))
    → (m : Bool)
    → (if m && (u && l) then on else if m && (t && l) then on else off)
      ≡ (if m && l then on else off)
capture_lem on off t u l h false = refl
capture_lem on off t u true (inl e) true = rw e refl
capture_lem on off t u false (inl e) true = ground arith
capture_lem on off t u true (inr (e, e')) true = rw (e, e') refl
capture_lem on off t u false (inr (e, e')) true = rw (e, e') refl

run-capture :
    (gl : Bool) (pick : ℕ) (p : Packet)
    → run_chain [] pick p (dns_capture_rules gl)
      ≡ (if not gl && ((p.dst_port == 53) && p.from_lan) then some 53 else none)
unfolding run_chain dns_capture_rules apply_verdict
run-capture true pick p = refl
run-capture false pick p =
    capture_lem (some 53) none (same_proto tcp p.proto) (same_proto udp p.proto) p.from_lan
      (proto_cases p.proto) (p.dst_port == 53)

or_next-if :
    (b : Bool) (n : ℕ) (next : Option ℕ)
    → or_next (if b then some n else none) next ≡ (if b then some n else next)
or_next-if true n next = refl
or_next-if false n next = refl

-- In a table for one, two or three sessions. In smart mode every packet from the LAN to port 53 is redirected by nat to port 53 of the router. Otherwise nat redirects a packet to a proxy process exactly when it is a TCP packet that is to reach one, and TPROXY hands a packet to one exactly when it is such a UDP packet; both take the port of the session that the drawn number picks, and every slot that a rule jumps to has its chain.
pub targets-build_table :
    (plan : Plan) (cidrs : List Bytes) (pick : ℕ) (p : Packet)
    → 1 ≤ plan.session_count
    → plan.session_count ≤ 3
    → let session = some (session_port (pick % plan.session_count)) in
      (nat_target (build_table plan cidrs) pick p ≡ (
        if captured plan p
        then some 53
        else if same_proto tcp p.proto && wanted plan p
        then session
        else none))
      × (tproxy_target (build_table plan cidrs) pick p
          ≡ (if same_proto udp p.proto && wanted plan p then session else none))
unfolding nat_target tproxy_target captured build_table
targets-build_table plan cidrs pick p l u = (
  rw (run-capture plan.is_global pick p, run-any plan tcp pick p l u)
      (or_next-if (captured plan p) 53 _),
  run-any plan udp pick p l u,
)
