-- ===== src/Healthd.antt =====
-- health/healthd_common.cpp: the event loop of the health service.
pub mod Wakealarm
pub mod Uevent
pub mod Main
pub mod Twice
