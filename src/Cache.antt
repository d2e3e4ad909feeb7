-- ===== src/Cache.antt =====
-- auth_token/_cache.py: the token cache, in memory or at memcached.
pub mod Memory
pub mod Tokens
