-- ===== src/SpeedTest.antt =====
-- The server directories of openwrt/opensocks/src/speedtest.go. What a request for a directory gave is an
-- argument; times are seconds. Coordinates and measured pings are left out.
pub mod Directory
pub mod Padding
pub mod Socks
pub mod Pool
pub mod Runs
use open_socks.Prelude.{
  ℕ, ◌+◌, ◌-◌, String, Bool, not, ◌&&◌, Option, none, some, List, [], ◌∷◌, ◌++◌, ltb, if◌then◌else◌,
  length, take, filter, Bytes, codes, bytes_eq, Result, ok, err, ◌>>=◌,
}
use open_socks.Lines.{contains}
use open_socks.Server.{bytes_lt}

pub record SpeedServer : Type 0 where
  pub url : Bytes
  pub name : Bytes
  pub country : Bytes
  pub cc : Bytes
  pub sponsor : Bytes
  pub id : Bytes
  pub host : Bytes

abbrev pub server : String → String → String → String → String → String → String → SpeedServer
server url name country cc sponsor id host = record {
  url = codes url;
  name = codes name;
  country = codes country;
  cc = codes cc;
  sponsor = codes sponsor;
  id = codes id;
  host = codes host;
}

unfoldable pub built_in_china_speed_servers : List SpeedServer
built_in_china_speed_servers =
    server "http://beijing.unicomtest.com:8080/speedtest/upload.php" "Beijing" "China" "CN"
      "BJ Unicom" "43752" "beijing.unicomtest.com:8080"
    ∷ server "http://speedtest.dukekunshan.edu.cn:8080/speedtest/upload.php" "Kunshan" "China" "CN"
        "Duke Kunshan University" "30852" "speedtest.dukekunshan.edu.cn:8080"
    ∷ server "http://mobile.shunicomtest.com:8080/speedtest/upload.php" "Shanghai" "China" "CN"
        "China Unicom 5G" "24447" "mobile.shunicomtest.com.prod.hosts.ooklaserver.net:8080"
    ∷ server "http://speedtest.jsqiuying.com:8080/speedtest/upload.php" "Suzhou" "China" "CN" "JSQY"
        "16204" "speedtest.jsqiuying.com:8080"
    ∷ []

-- The servers of the last answer, and when it came.
pub record Cache (A : Type 0) : Type 0 where
  pub servers : List A
  pub at : ℕ

abbrev pub is_fresh : {A : Type 0} → ℕ → Cache A → Bool
is_fresh now c = ltb 0 (length c.servers) && ltb (now - c.at) 600

-- The order by name; `sort.Slice` may put equal names in any order, and this keeps theirs.
unfoldable pub insert_server : SpeedServer → List SpeedServer → List SpeedServer
unfolding bytes_lt
insert_server s [] = s ∷ []
insert_server s (x ∷ xs) =
    let rest = insert_server s xs in if bytes_lt x.name s.name then x ∷ rest else s ∷ x ∷ xs

unfoldable pub sort_servers : List SpeedServer → List SpeedServer
unfolding insert_server
sort_servers [] = []
sort_servers (s ∷ ss) = insert_server s (sort_servers ss)

abbrev pub is_chinese : SpeedServer → Bool
is_chinese s = bytes_eq s.cc (codes "CN")

abbrev pub keep_found :
    ℕ → Cache SpeedServer → List SpeedServer → List SpeedServer × Cache SpeedServer
keep_found now c [] = (built_in_china_speed_servers, c)
keep_found now c (s ∷ ss) = (s ∷ ss, record { servers = s ∷ ss; at = now })

abbrev pub after_answer :
    ℕ → Cache SpeedServer → Option (List SpeedServer) → List SpeedServer × Cache SpeedServer
after_answer now c none = (built_in_china_speed_servers, c)
after_answer now c (some all) = keep_found now c (sort_servers (filter is_chinese all))

-- discoverChinaSpeedServers, which never fails; `answer` is `none` for a request that fails, has another
-- status than 200 or a body that is not decoded.
unfoldable pub discover_china_speed_servers :
    ℕ → Option (List SpeedServer) → Cache SpeedServer → List SpeedServer × Cache SpeedServer
unfolding bytes_eq sort_servers built_in_china_speed_servers
discover_china_speed_servers now answer c =
    if is_fresh now c then (c.servers, c) else after_answer now c answer

pub record SpeedTestCnServer : Type 0 where
  pub id : Bytes
  pub operator : Bytes
  pub ping_url : Bytes
  pub download_url : Bytes
  pub upload_url : Bytes

-- The UTF-8 of the word that the operator of a mobile network has in its name.
abbrev pub mobile_word : Bytes
mobile_word = 231 ∷ 167 ∷ 187 ∷ 229 ∷ 138 ∷ 168 ∷ []

unfoldable pub is_mobile : SpeedTestCnServer → Bool
unfolding contains
is_mobile s = contains s.operator mobile_word

-- The mobile servers first, each part in its order.
unfoldable pub mobile_first : List SpeedTestCnServer → List SpeedTestCnServer
unfolding is_mobile
mobile_first ss = filter is_mobile ss ++ filter (λ s. not (is_mobile s)) ss

abbrev pub after_nodes :
    ℕ
    → Cache SpeedTestCnServer
    → Result Bytes (List SpeedTestCnServer)
    → Result Bytes (List SpeedTestCnServer) × Cache SpeedTestCnServer
after_nodes now c (err m) = (err m, c)
after_nodes now c (ok []) = (err (codes "SpeedTest.cn returned no measurement nodes"), c)
after_nodes now c (ok (s ∷ ss)) =
    let out = take 30 (mobile_first (s ∷ ss)) in (ok out, record { servers = out; at = now })

-- discoverSpeedTestCNServers, of the decrypted answer.
unfoldable pub discover_speed_test_cn_servers :
    ℕ
    → Result Bytes (List SpeedTestCnServer)
    → Cache SpeedTestCnServer
    → Result Bytes (List SpeedTestCnServer) × Cache SpeedTestCnServer
unfolding mobile_first
discover_speed_test_cn_servers now answer c =
    if is_fresh now c then (ok c.servers, c) else after_nodes now c answer
