-- ===== src/SpeedTest/Directory.antt =====
-- What the server directories of openwrt/opensocks/src/speedtest.go give.
use open_socks.Prelude.{
  ℕ, ◌≤◌, ◌≡◌, refl, inl, inr, true, Option, none, some, List, [], ◌∷◌, arith, Bool-cases, length,
  filter, All, bytes_eq,
}
use open_socks.Server.{bytes_lt}
use open_socks.SpeedTest.{
  SpeedServer, built_in_china_speed_servers, Cache, is_fresh, insert_server, sort_servers,
  is_chinese, keep_found, after_answer, discover_china_speed_servers,
}

-- A list of servers in China.
unfoldable pub Chinese : List SpeedServer → Type 0
Chinese ss = All (λ s. is_chinese s ≡ true) ss

-- A list to test with: at least one server, and all of them in China; the cache holds such servers only.
unfoldable pub Usable : List SpeedServer × Cache SpeedServer → Type 0
Usable (ss, c) = (1 ≤ length ss) × Chinese ss × Chinese c.servers

filter-Chinese : (ss : List SpeedServer) → Chinese (filter is_chinese ss)
unfolding Chinese
filter-Chinese [] = tt
filter-Chinese (s ∷ ss) = elim (Bool-cases (is_chinese s)) [
  | inl e ↦ rw e (e, filter-Chinese ss)
  | inr e ↦ rw e (filter-Chinese ss)
]

insert_server-Chinese :
    (s : SpeedServer) (ss : List SpeedServer)
    → is_chinese s ≡ true
    → Chinese ss
    → Chinese (insert_server s ss)
unfolding insert_server Chinese
insert_server-Chinese s [] e h = (e, tt)
insert_server-Chinese s (x ∷ xs) e (p, h) = elim (Bool-cases (bytes_lt x.name s.name)) [
  | inl b ↦ rw b (p, insert_server-Chinese s xs e h)
  | inr b ↦ rw b (e, (p, h))
]

sort_servers-Chinese : (ss : List SpeedServer) → Chinese ss → Chinese (sort_servers ss)
unfolding sort_servers Chinese
sort_servers-Chinese [] h = tt
sort_servers-Chinese (s ∷ ss) (p, h) =
    insert_server-Chinese s (sort_servers ss) p (sort_servers-Chinese ss h)

built_in-Usable :
    (c : Cache SpeedServer) → Chinese c.servers → Usable (built_in_china_speed_servers, c)
unfolding Usable built_in_china_speed_servers Chinese bytes_eq
built_in-Usable c h = (omega arith, (refl, (refl, (refl, (refl, tt)))), h)

found-Usable :
    (now : ℕ) (c : Cache SpeedServer) (ss : List SpeedServer)
    → Chinese ss
    → Chinese c.servers
    → Usable (keep_found now c ss)
unfolding Usable
found-Usable now c [] h k = built_in-Usable c k
found-Usable now c (s ∷ ss) h k = (omega arith, h, h)

answer-Usable :
    (now : ℕ) (c : Cache SpeedServer) (a : Option (List SpeedServer))
    → Chinese c.servers
    → Usable (after_answer now c a)
answer-Usable now c none h = built_in-Usable c h
answer-Usable now c (some all) h =
    found-Usable now c (sort_servers (filter is_chinese all))
      (sort_servers-Chinese (filter is_chinese all) (filter-Chinese all)) h

fresh-full : {A : Type 0} (now : ℕ) (c : Cache A) → is_fresh now c ≡ true → 1 ≤ length c.servers
fresh-full now c h = ground (arith, h)

fresh-Usable :
    (now : ℕ) (c : Cache SpeedServer)
    → is_fresh now c ≡ true
    → Chinese c.servers
    → Usable (c.servers, c)
unfolding Usable
fresh-Usable now c e h = (fresh-full now c e, h, h)

-- Whatever a request for the directory gives, discoverChinaSpeedServers gives at least one server, and only servers in China, where the cache holds no others; and the cache still holds no others.
pub discover_china_speed_servers-Usable :
    (now : ℕ) (answer : Option (List SpeedServer)) (c : Cache SpeedServer)
    → Chinese c.servers
    → Usable (discover_china_speed_servers now answer c)
unfolding discover_china_speed_servers
discover_china_speed_servers-Usable now answer c h = elim (Bool-cases (is_fresh now c)) [
  | inl e ↦ rw e (fresh-Usable now c e h)
  | inr e ↦ rw e (answer-Usable now c answer h)
]
