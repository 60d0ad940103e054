-- ===== src/Lowlevel.antt =====
-- src/al_lowlevel.cpp: the store of contexts behind the integer ids of the C interface, the actions on
-- them, and the registry of plugins.
pub mod Outcome
pub mod Store
pub mod Values
pub mod Types
pub mod Actions
pub mod Operations
pub mod Transfer
pub mod Plugins
