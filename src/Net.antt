-- ===== src/Net.antt =====
-- The lecture's servers that watch many sockets in one thread, lecture_examples/9_aio and
-- lecture_examples/10_users/9_daemon.c.
pub mod Clients
pub mod Serving
pub mod Select
pub mod Poll
pub mod Polled
pub mod Daemon
pub mod Watched
pub mod Epoll
pub mod Kqueue
