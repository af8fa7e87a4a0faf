-- ===== src/Insert.antt =====
-- The geometry of insert mode in live-browser.js: on which axis and beside which element of a page
-- a new element is put, and how its placeholder is sized.
pub mod Axis
pub mod Gap
pub mod Placeholder
mod Tests
