-- ===== src/Plugin.antt =====
-- plugin.h and plugin.cpp: the drivers that are registered, and the connection that calls them.
pub mod Routes
pub mod Methods
pub mod Handlers
pub mod Replies
pub mod Requests
pub mod Pipelines
pub mod Client
pub mod Refusals
pub mod Sockets
pub mod Serving
pub mod Registration
pub mod Malformed
pub mod Activation
pub mod Startup
