-- ===== src/Ignores.antt =====
-- live-browser-ignores.js: the project's detector waivers, resolved for one page.
pub mod Engine
pub mod Glob
pub mod Page
pub mod Resolve
mod Tests
