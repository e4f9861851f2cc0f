-- ===== src/Process.antt =====
-- main.c: the start of the process, its devices, the HTTP child, and the end; filesd.c; dcgm_setup.
pub mod DcgmSetup
pub mod Identity
pub mod Startup
pub mod Spawn
pub mod FileSd
pub mod Notify
