-- ===== src/Frontend.antt =====
-- frontend/main.js, the script of the page that shows a share on a map.
pub mod Locale
pub mod Link
pub mod Connection
pub mod Locate
pub mod Countdown
pub mod Number
pub mod Geometry
pub mod Trail
pub mod Speed
pub mod Shares
pub mod Dialogs
pub mod Staleness
pub mod Update
pub mod Decrypt
pub mod Prompt
pub mod Polling
