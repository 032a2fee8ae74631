-- ===== src/Dns.antt =====
-- internal/dnsproxy: the split forwarder. The DNS library (miekg/dns) and the network are
-- parameters, and logs are left out.
pub mod Suffix
pub mod Forward
pub mod Server
pub mod Listen
pub mod Dial
pub mod Command
mod Tests
