-- ===== src/Context.antt =====
-- src/al_context.cpp with the constants of include/al_const.h and include/al_defs.h.in: the contexts of a
-- data entry, of an operation on it, and of an array of structures.
pub mod Const
pub mod Entry
pub mod Legacy
pub mod Operation
pub mod Arraystruct
