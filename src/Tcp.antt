-- ===== src/Tcp.antt =====
-- The TCP library: tcp-link.cpp, ms-epoll.cpp, ms-epoll-tcp.cpp.
pub mod State
pub mod Monad
pub mod Epoll
pub mod Registry
pub mod Callback
pub mod Sockets
pub mod Link
pub mod Events
pub mod Worker
pub mod Api
pub mod Valid
pub mod Delivery
pub mod Handles
pub mod Teardown
pub mod Idle
pub mod Start
pub mod Errors
pub mod Race
pub mod Sleep
pub mod Tests
mod RaceTests
