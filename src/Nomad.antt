-- ===== src/Nomad.antt =====
-- internal/nomad: the state of Docker and of Nomad on a server, extracted and restored.
pub mod Json
pub mod Docker
pub mod Jobs
