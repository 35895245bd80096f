-- ===== src/Drivers.antt =====
-- The crate kernel_driver_hub, as far as it is modelled.
pub mod Cmos
pub mod Keyboard
