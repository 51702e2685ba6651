-- ===== src/Dns.antt =====
-- openwrt/opensocks/src/dns_observer.go
pub mod Name
pub mod Answers
pub mod Domains
pub mod Tables
