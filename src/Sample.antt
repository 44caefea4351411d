-- ===== src/Sample.antt =====
-- sample_volume: a volume driver that keeps each volume in a directory of its own.
pub mod Files
pub mod Util
pub mod Times
pub mod Driver
pub mod Main
pub mod Replies
pub mod Served
pub mod Loop
pub mod Program
