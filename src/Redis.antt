-- ===== src/Redis.antt =====
-- broker/redis.py: the operation handle and the broker, as the commands that they send. Redis is an
-- argument, with the laws of its documentation.
pub mod Server
pub mod Broker
pub mod Kept
pub mod Retry
pub mod Cancel
