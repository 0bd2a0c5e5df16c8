-- ===== src/Dns.antt =====
-- Dev/Main/src/TransProxy: DNS queries, those that are answered and those that are passed on.
pub mod Agent
pub mod Server
