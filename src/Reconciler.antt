-- ===== src/Reconciler.antt =====
-- pkg/reconciler: the reconcilers of devices and apps.
pub mod Node
pub mod App
pub mod Mdns
pub mod Device
