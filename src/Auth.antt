-- ===== src/Auth.antt =====
-- services/mqtt_auth and the account that kreceiver reads from a topic: which user may publish
-- where, and as whom a message is taken.
pub mod Topics
pub mod Keys
pub mod Login
