-- ===== src/Redis.antt =====
-- app/utils/redis_client.py: `RedisClient` and its decorators, on a server with the documented
-- behaviour of Redis.
pub mod Server
mod Memory
pub mod Client
pub mod Run
pub mod Once
pub mod Rate
pub mod Cache
mod Tests
