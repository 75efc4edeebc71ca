-- ===== src/Client.antt =====
-- FunctionalClientTest: the client program, with the messages that it makes, the reader of what it
-- gets, and what it does with the server's replies.
pub mod Garbled
pub mod Requests
pub mod Reader
pub mod Replies
pub mod RoundTrip
pub mod Login
mod Examples
