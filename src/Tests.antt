-- ===== src/Tests.antt =====
-- Concrete runs of the code, and a concrete instance of each interface.
mod Values
mod Decoding
mod Wire
mod Serving
mod Requests
mod Plugins
mod Volumes
mod Directories
mod Client
mod Program
mod Times
