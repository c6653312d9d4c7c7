-- ===== src/Service.antt =====
-- Services (service/): the messages that pass between the builder and a service.
pub mod Protocol
pub mod Client
pub mod Manager
