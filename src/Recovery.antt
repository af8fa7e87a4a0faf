-- ===== src/Recovery.antt =====
-- Session recovery of live-browser.js: which session a page resumes when it is loaded, and how.
pub mod Summary
pub mod Choice
pub mod Meta
pub mod Missed
pub mod Reload
pub mod Resume
pub mod State
mod Tests
