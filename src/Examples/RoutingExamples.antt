-- ===== src/Examples/RoutingExamples.antt =====
-- Tables, worlds and calls for the properties of the routing and the controller.
use open_socks.Prelude.{
  ℕ, ◌+◌, ◌%◌, ◌≡◌, refl, Bool, true, false, none, some, List, [], ◌∷◌, arith, ◌==◌, ◌&&◌,
  if◌then◌else◌, Bytes, codes, ok, err,
}
use open_socks.Session.Engine.{new_engine}
use open_socks.Settings.{read_settings}
use open_socks.Netfilter.{tcp, udp, Dest, cn4, Plan, Kernel, build_table, routes_of, setup_redirect}
use open_socks.Netfilter.Packets.{Packet, same_proto, nat_target, tproxy_target}
use open_socks.Netfilter.Routing.{wanted, captured, session_port, targets-build_table}
use open_socks.Netfilter.Replace.{Replaced, setup_redirect-Replaced}
use open_socks.Netfilter.Learned.{Seen}
use open_socks.Controller.{api_code, transport, Client, Outside, World, get_lines_authenticated}
use open_socks.Controller.Connecting.{connect}
use open_socks.Controller.Retry.{Tried, SignInFree, get_lines-Tried}
use open_socks.Examples.SessionExamples.{ss_response, some_system, directory}
use open_socks.Examples.SettingsExamples.{stored_disk}

abbrev pub some_plan : Plan
some_plan = record {
  is_global = false;
  proxies = codes "10.1.1.1" ∷ [];
  session_count = 2;
  include_cidrs = [];
  exclude_cidrs = [];
  domain_ips = [];
  service_ips = λ _. [];
}

abbrev only_cn4 : Dest → Bool
only_cn4 cn4 = true
only_cn4 _ = false

abbrev cn_packet : Packet
cn_packet = record { from_lan = true; proto = tcp; dst_port = 443; inside = only_cn4 }

-- A packet to a Chinese address goes to the second session for the number 5.
targets-build_table_example :
    let session = some (session_port (5 % 2)) in
    (nat_target (build_table some_plan (codes "1.0.1.0/24" ∷ [])) 5 cn_packet ≡ (
      if captured some_plan cn_packet
      then some 53
      else if same_proto tcp cn_packet.proto && wanted some_plan cn_packet
      then session
      else none))
    × (tproxy_target (build_table some_plan (codes "1.0.1.0/24" ∷ [])) 5 cn_packet
        ≡ (if same_proto udp cn_packet.proto && wanted some_plan cn_packet then session else none))
targets-build_table_example =
    targets-build_table some_plan (codes "1.0.1.0/24" ∷ []) 5 cn_packet (omega arith) (omega arith)

-- No China routes, with an earlier table in place.
abbrev pub some_kernel : Kernel
some_kernel = record {
  table = some (build_table some_plan []);
  policy_rule = true;
  policy_route = true;
  china_routes = none;
  rule_works = true;
  route_works = true;
  nft_works = true;
}

setup_redirect-Replaced_example :
    Replaced some_plan some_kernel
      (routes_of some_plan some_kernel)
      (setup_redirect some_plan some_kernel)
setup_redirect-Replaced_example = setup_redirect-Replaced some_plan some_kernel

abbrev old_seen : Seen
old_seen = (codes "a", 100) ∷ (codes "b", 9000) ∷ []

abbrev learned : List (Bytes × List Bytes)
learned = (codes "domain4", codes "1.2.3.4" ∷ []) ∷ []

-- A service that counts the requests for the directory, and answers the first with an expired session.
abbrev pub some_client : Client ℕ
some_client = record {
  configure = λ _ _ n. n;
  has_auth = λ _. true;
  clear_auth = λ n. n;
  register = λ n. (err transport, n);
  login = λ _ n. (ok (codes "session"), n);
  get_lines = λ n. (if n == 0 then err (api_code 20001) else ok directory, n + 1);
  connect = λ _ _ _ n. (ok ss_response, n);
  issue_connections = λ _ _ _ _ _ n. (err transport, n);
  account = λ _. none;
  use_first = λ n. n;
  disconnect_all = λ _ n. n;
}

abbrev pub some_outside : Outside
some_outside = record {
  answers = λ _. true;
  resolve_ipv4 = λ s. s;
  valid_cidrs = λ _. [];
  domain_ips = [];
  service_ips = λ _. [];
  now_id = codes "17";
  now_text = codes "now";
}

abbrev pub some_world : World ℕ
some_world = record {
  net = 0;
  cfg = (read_settings stored_disk).0;
  store = record {
    disk = stored_disk;
    credentials = some (record {
      auth_by = codes "email";
      auth_type = [];
      username = [];
      password = codes "p";
      email = codes "a@b";
      phone = [];
      cc = [];
    });
    account = none;
    history = some [];
    files_work = true;
  };
  lines = [];
  engine = new_engine;
  system = some_system;
  kernel = some_kernel;
}

no_sign_in : SignInFree some_client (λ n. n)
unfolding SignInFree
no_sign_in = (λ x. refl, λ i x. refl)

get_lines-Tried_example :
    Tried some_client (λ n. n) 3 0 (get_lines_authenticated some_client some_world)
get_lines-Tried_example = get_lines-Tried some_client (λ n. n) (λ x. refl) no_sign_in some_world
