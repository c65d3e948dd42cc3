-- ===== src/Irc.antt =====
-- internal/irc: the notifier's side of an IRC connection.
pub mod Queue
pub mod Dispatcher
pub mod Connection
pub mod Charset
pub mod Setup
