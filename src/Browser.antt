-- ===== src/Browser.antt =====
-- wheel/browser/: the CDP browser manager and its contexts (imp/cdp_browser_manager.h and .cpp),
-- browser_models and browser_helpers.
pub mod Selector
pub mod Base64
pub mod Config
pub mod State
pub mod Exec
pub mod Scripts
pub mod Commands
pub mod Pages
pub mod Contexts
pub mod Callbacks
pub mod Messages
pub mod Lifecycle
pub mod Sessions
pub mod Replies
pub mod Stopped
pub mod Stuck
pub mod Waiting
pub mod Closed
pub mod Answered
pub mod Replaced
pub mod Cookies
pub mod Life
pub mod Launch
pub mod Fresh
pub mod Awaits
pub mod Granted
