-- ===== src/Web.antt =====
-- src/web: the pages.
pub mod Escape
pub mod Escaped
pub mod Shown
pub mod Marks
pub mod Style
pub mod Page
pub mod Blanked
pub mod Status
pub mod Statuses
