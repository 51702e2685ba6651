-- ===== src/Lib.antt =====
-- OpenSocks is a proxy client for OpenWrt routers: a daemon in Go signs in to a line service,
-- asks it for a server, runs one to three ss-redir processes, and steers the traffic of the LAN
-- into them with an nftables table. This library models the daemon, openwrt/opensocks/src.
--
-- How the parts work together. The controller (controller.go) refreshes the settings (uci.go),
-- picks a line, asks the API client (api.go, dual_experiment.go) for connection data, starts the
-- engine (mihomo.go) with it and then replaces the nftables table (netfilter.go). The DNS
-- observer (dns_observer.go) reads the answers that the router sends to the LAN and adds the
-- addresses of Chinese services to the table's sets. The HTTP server (server.go, mobile.go)
-- passes requests to the controller and its stores. The speed-test job (speedjob.go) is a state
-- that a running test (speedtest.go) reports to and the web page polls.
--
-- Modules. Prelude: tests, lists, bytes, results, and the integers that Go's int stands for.
-- Decimal: strconv.Atoi and Itoa. Dns: dnsName, dnsIPv4Answers and the classification of names,
-- with the built-in tables. Settings: readSettings, uciSnapshot and the settings update of
-- server.go (Update). Session: orderedBoots and selectedBoot (Boots), the configuration
-- (Proxies), startConnections, stop and the liveness tests (Engine). Lines: listLines and
-- pickLine. Netfilter: setupRedirect, teardown and addDynamicElements, with a reading of the
-- chains in Netfilter.Packets; Netfilter.China: loadChinaRoutes and download; Netfilter.Resolved:
-- the resolved domains with their cache, and the flush of learned answers; Netfilter.Pinned:
-- setupRedirect with these in front. History: history.go. Api: the client's state, cookies and
-- envelope; Api.Calls: its requests; Api.Slots: issueConnections; Api.Interface: the client as
-- the record Client of the controller, and its laws; Api.Cleanup and Api.Probe: the maintenance
-- commands of dual_experiment.go. Controller: login, logout, renewal and the directory;
-- Controller.Connecting: connect, connectMultiLine, disconnect, reconnect; Controller.Backoff:
-- the watchdog; Controller.Setup: setupNetwork, registerByDevice and the cached picker list.
-- Server: the routes; Server.Handlers: each handler and the two listeners; Server.Token: the
-- bearer token. Vault: the encrypted sign-in file of authstore.go. Device: device_profile.go and
-- device_identity.go. SpeedJob: speedjob.go. SpeedTest: the server directories of speedtest.go;
-- SpeedTest.Padding: decryptSpeedTestCN; SpeedTest.Pool: the ss-local helpers; SpeedTest.Socks:
-- the SOCKS5 client; SpeedTest.Runs: runChinaSpeedTest. Region and Latency: regiontest.go and
-- latency.go. Traffic: the sampler of traffic.go. Examples: each result at a concrete input.
--
-- State and errors. Bytes are lists of numbers below 256 where they come from the network, and
-- strings are their bytes; lower case and region tests are those of ASCII. An index out of range
-- is `crash` of the type Run. A handler takes a state and returns it with a Result. UCI options
-- are text of one line, which uciSnapshot reads back (Settings.Snapshot). Deletions by nft and ip
-- are taken to work. The handles of the engine are children that are not waited for; what signal
-- 0 answers of them is left open. Files and the answers of the system (nft, ip, process start,
-- randomness, the clock) are fields or arguments, and so are JSON, base64, AES, the digest and
-- the transport of HTTP requests. Mutexes are left out: each handler runs to its end. Goroutines
-- that serve one call are taken in one order.
--
-- Fuel and bounds. dnsName follows pointers to a depth of eight, as the code does, and inside a
-- level recurs on the number of bytes of the message, which a label always shortens. The loops
-- with a fixed number of rounds keep it: three requests of the controller for a directory, two
-- attempts of an authenticated call, three logins of a slot, six pings of a speed test. Line ids
-- are integers without the bound of Go's int; parseRegionID wraps at 2^64.
--
-- Not modelled: the transfers, HTTP pings and rates of speedtest.go and its runSpeedTestCN, the
-- request of testChinaExitRegion, the reading of ping's output, the rates of traffic.go, logging,
-- the raw socket and its filter, the leak guard, QUIC rejection and traffic chains of the table,
-- the listeners' limits, and the mobile application and LuCI pages, which are not part of the
-- daemon. They are input and output, floating-point values or fixed text.
pub mod Prelude
pub mod Dns
pub mod Decimal
pub mod Settings
pub mod Session
pub mod Lines
pub mod Netfilter
pub mod History
pub mod Controller
pub mod Device
pub mod SpeedJob
pub mod Examples
pub mod Traffic
pub mod Api
pub mod Server
pub mod Vault
pub mod SpeedTest
pub mod Region
pub mod Latency
