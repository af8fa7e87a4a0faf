-- ===== src/Target.antt =====
-- The agent targets of live-browser.js: what one browser tab does when an agent asks it, over the
-- helper server, to pick an element and press Go.
pub mod Resolve
pub mod Tab
pub mod Bar
mod Tests
