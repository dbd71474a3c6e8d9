-- ===== src/Client.antt =====
-- wci/client: what the rest of the server calls to reach the instances.
pub mod Id
pub mod Hook
