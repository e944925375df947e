-- ===== src/Irc/Client.antt =====
-- irc/IRCClient.h and irc/IRCClient.cpp: the agent that serves one account by several sessions. A
-- handler returns the client and its effects, in order; `none` is a fault: a null or dangling
-- pointer, an index out of range, a division by zero, a shift by too much. Handlers are atomic steps,
-- also those that libircclient calls on the selector's thread.
pub mod State
pub mod Handlers
pub mod Commands
pub mod RoundRobin
pub mod Delivery
pub mod Events
pub mod Live
pub mod Reload
