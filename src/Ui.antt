-- ===== src/Ui.antt =====
-- The web interface, cmd/ui/main.go: its handlers.
pub mod Numbers
pub mod Feeds
pub mod Stream
pub mod Send
pub mod Token
