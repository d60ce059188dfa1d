-- ===== src/Flash.antt =====
-- The flash hardware, from a page up to a package.
pub mod Page
pub mod Effect
pub mod Kept
pub mod Wear
pub mod Block
pub mod Plane
pub mod Die
pub mod Package
