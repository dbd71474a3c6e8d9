-- ===== src/Iface.antt =====
-- wci/workflow/iface: the data that the controller's parts exchange.
pub mod Types
pub mod MapAccess
pub mod Spec
pub mod SpecUpdate
