-- ===== src/Remote.antt =====
-- The data of the remote sources in controlplane/providers, and the keys under which it is cached.
pub mod Github
pub mod Split
pub mod Helm
