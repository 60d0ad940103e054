-- ===== src/Panzer.antt =====
-- src/hdf5/panzerdb.cpp and panzerdb.h: the index and column engine of the HDF5 backend.
pub mod Types
pub mod Path
pub mod Row
pub mod Append
pub mod Stack
pub mod Lookup
pub mod Loader
pub mod Write
pub mod Query
pub mod Nearest
pub mod Find
pub mod Read
