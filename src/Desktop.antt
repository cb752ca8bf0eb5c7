-- ===== src/Desktop.antt =====
-- The desktop on which documents lie as cards: frontend/src/desktop/.
pub mod Numbers
pub mod Cards
pub mod Geometry
pub mod Store
pub mod Records
pub mod Layout
pub mod Runs
pub mod Stacking
pub mod Kept
pub mod Resizing
pub mod Visible
pub mod Saving
pub mod Sync
mod Samples
mod Tests
