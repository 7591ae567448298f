-- ===== src/Daemon.antt =====
-- The caching daemon, rrdtool-1.4.5/src/rrd_daemon.c: the queue of files that wait to be
-- written, the threads that work on it, and what a client's connection goes through: the lines that
-- are read, the commands, and the responses.
pub mod Queue
pub mod Threads
pub mod Connection
pub mod Response
pub mod Command
pub mod Access
pub mod Cache
