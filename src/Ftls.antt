-- ===== src/Ftls.antt =====
-- The folder FTLs: FTLs of the simulator beside MNFTL, and their base class in ssd_ftlparent.cpp.
pub mod Parent
pub mod Bast
pub mod PageFtl
