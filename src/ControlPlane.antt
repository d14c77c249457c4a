-- ===== src/ControlPlane.antt =====
-- internal/controlplane: the operator's side.
pub mod View
pub mod Audit
pub mod Limits
mod Tests
