-- ===== src/Http.antt =====
-- http_server.h and http_server.cpp: connections that speak HTTP/1.1 over a channel.
pub mod Headers
pub mod Status
pub mod Connection
pub mod Response
pub mod Callbacks
