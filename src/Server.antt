-- ===== src/Server.antt =====
-- sector/server: the limits on the messages of a connection.
pub mod RateLimits
mod Tests
