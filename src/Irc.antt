-- ===== src/Irc.antt =====
-- The directory irc/: channels, sessions, clients and their controller.
pub mod Channels
pub mod Statistic
pub mod Session
pub mod Client
pub mod SelectorPool
pub mod Controller
