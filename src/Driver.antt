-- ===== src/Driver.antt =====
-- patches/: the NPU as an IP block of the amdgpu kernel driver.
pub mod Block
pub mod Manager
pub mod Ring
