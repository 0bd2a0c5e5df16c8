-- ===== src/Trans.antt =====
-- Dev/Main/src/TransProxy: connections that the proxy hands on to an upstream proxy.
pub mod Segment
pub mod Auth
pub mod Conn
pub mod Agent
pub mod Table
