-- ===== src/Udp.antt =====
-- The UDP library: udp-link.cpp, udp-ms-epoll.cpp, ms-epoll-udp.cpp, and their headers.
pub mod State
pub mod Monad
pub mod Registry
pub mod Link
pub mod Send
pub mod Worker
pub mod Api
pub mod Queue
pub mod Valid
pub mod Teardown
pub mod Start
mod Tests
