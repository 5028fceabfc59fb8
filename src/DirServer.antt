-- ===== src/DirServer.antt =====
-- lab6: the server that lists directories for its clients.
pub mod Heap
pub mod Queue
pub mod Pool
pub mod Requests
pub mod Client
pub mod Exit
