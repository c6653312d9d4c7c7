-- ===== src/Ipc.antt =====
-- Communication with services (ipc/): the file descriptors that come with a message.
pub mod FdSet
