-- ===== src/Platform.antt =====
-- What other platforms have in place of the POSIX monitor (src/win32, src/macos), and locks of
-- src/linux, src/vanilla, src/win32 and src/posix.
pub mod Once
pub mod Windows
pub mod Macos
pub mod Spin
pub mod Recursive
pub mod Tests
