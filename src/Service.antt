-- ===== src/Service.antt =====
-- src/service.c: the services, their variables, their settings and their state machine.
pub mod Vars
pub mod Machine
pub mod Settings
mod Examples
