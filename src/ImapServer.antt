-- ===== src/ImapServer.antt =====
-- crates/mail-mock-server/src/imap_server.rs: one connection of the mock IMAP server as a state
-- machine. An event is a line or the bytes of a literal that the client sends, a delivery that the
-- store broadcasts, or the end of the stream; a turn writes byte strings. No other connection comes
-- between the locks of one command. Sockets, TLS and the accept loop are left out; base64, the
-- mail parser and UTF-8 decoding are the fields of `Libraries`.
pub mod Syntax
pub mod State
pub mod Access
pub mod Fetch
pub mod Change
pub mod Connection
