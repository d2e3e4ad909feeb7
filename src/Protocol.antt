-- ===== src/Protocol.antt =====
-- auth_token/__init__.py: BaseAuthProtocol.
pub mod PathRules
pub mod Bind
pub mod Rules
pub mod Process
