-- ===== src/Limit.antt =====
-- server/src/ratelimit: the token buckets of a connection and of an IP address.
pub mod Bucket
pub mod Rate
pub mod IpKey
pub mod IpLimiter
pub mod Bounds
pub mod Examples
