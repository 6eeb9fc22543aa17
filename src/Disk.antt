-- ===== src/Disk.antt =====
-- The constructor and the destructor of `LFile` (src/lfile.hpp), and the commands of `ConsoleMode`
-- (main.cpp) that open files by their paths: rm, mkdir, cp, mv, cat and addline. `FileInterface` is the
-- firmware's EFI_SIMPLE_FILE_SYSTEM_PROTOCOL: it is the parameter `FileSystem`, over the medium's state.
-- An open file is a value of File.antt's `Handle`; what was written to it is on the medium once it is
-- closed.
pub mod Commands
pub mod Lawful
pub mod Balance
pub mod Written
pub mod Copied
pub mod Moved
pub mod Appended
pub mod Shown
pub mod Lines
pub mod AddedLine
