-- ===== src/Lib.antt =====
-- LavoroL, a UEFI program with a graphical file explorer and a console.
--
-- The program's parts and their models:
--   * `src/lreader.hpp`, `LReader`: Reader. A derived class fills 128 cells by `ReadBuffer`, a
--     parameter of the model; `at_end`, `reset`, `set_text`, `current`, `next`, `read` and `read_line`
--     are the methods. Reader.Source says what `ReadBuffer` promises, Reader.Pending what a reader has
--     still to deliver, Reader.Drain is the loop `while (!AtEnd())`.
--   * `src/lwriter.hpp`, `LWriter`: Writer, with `write`, `write_all`, `flush`, `reset` and `destroy`.
--   * `src/lfile.hpp` and `src/lfile.cpp`, `LFile`: File, over the firmware's EFI_FILE (`Protocol`).
--     Disk.Commands has its constructor and destructor, over the firmware's EFI_SIMPLE_FILE_SYSTEM_PROTOCOL
--     (`FileSystem`), and the commands rm, mkdir, cp, mv, cat and addline on the medium; Disk.Lawful is
--     the abstract medium, a map from places to bytes, and Disk.Lines, Disk.AddedLine and Disk.Shown
--     run the lines and commands of the console on it.
--   * `src/ltask.hpp` and `src/ltask.cpp`, the queue of tasks: Task, a heap of linked objects with
--     `enqueue`, `dequeue`, `add_task` and `do_events`. Task.Chain relates it to a list.
--   * `src/lscreen.hpp`, `LScreen`: Screen, with `get_buffer`, `set_buffer`, `fill`, `draw_at`, `scale`.
--   * `src/lsocket.hpp` and `src/lsocket.cpp`, `LSocket`: Socket and Socket.Connection, over the
--     firmware's TCP4 protocol (`Tcp`), with `connect`, `accept`, `transmit`, `receive` and
--     `read_buffer`. Its waiting loops call `do_events` of Task. Socket.Construct has the constructor
--     and the destructor, with the calls of the firmware that they make, and
--     Socket.Accepting the callback of an accepted connection and the loop of the command accept.
--   * `src/lfont.hpp`, `LFont`: Font, with `insert`, `get_char_bitmap` and `draw_text`; Font.Construct
--     is the constructor, which reads the font's file line by line (Font.Lines), and Font.Scan the
--     method LoadBitmap, which cuts a picture into characters.
--   * `src/lfont.cpp`, the table of fonts: Font.Table, with `load_fonts` and `get_font`.
--   * `src/lbitmap.hpp`, `LBitmap`: Bitmap (the rows, from a Reader) and Bitmap.Headers (the constructor).
--   * `src/packages/ACM/Box.cpp`: Box, with `check`, `box` and `possible`.
--   * `src/packages/ACM/Pyramids.cpp`: Pyramids, with `f` and `print_counts`. Pyramids.Count is the
--     recurrence without a table.
--   * `src/packages/AntTSP/AntTSP.cpp`: AntTsp, the ants and their rounds, and AntTsp.Colony, the search.
--     The arithmetic of `double` is the parameter `Doubles`.
--   * `main.cpp`, `ConsoleMode`: Console (which command a line is, and the paths that a handler builds),
--     Console.Batch (the loop over the lines of a batch file), Console.Address (the address that connect
--     reads), Console.Ls (the listing of ls), Transfer (the loops of cat, cp and mv, from a Reader to a
--     Writer) and File.AddLine (addline, over the protocol of a file with a position, File.Seek).
--   * `main.cpp`, `ScreenMode`: Explorer (pages, listing, active entry and keys), Explorer.Icons
--     (the places of the pictures of a listing), Explorer.Viewer (the picture and the text of page 2),
--     Explorer.Windows (the windows, and the texts of help and readme).
--   * `main.cpp`, `draw_boxes` and `print_modes`, and `src/lscreen.cpp`, `InitializeGraphics`: Graphics,
--     over the firmware's graphics protocol (`Gop`).
--   * `main.cpp`, `fill_boxes`: Boxes. `main.cpp`, `efi_main`, and `src/lfs.cpp`, `InitializeFileSystem`:
--     Start.
-- Base has the names that all share, the Boolean tests, the lemmas on lists and the integers.
-- Examples applies the theorems to concrete inputs.
--
-- Numbers are natural numbers; a 32-bit pixel and a byte have their `% 2 ^ 32` and `% 256` written out,
-- and the explorer's index, which can be negative, is an integer. A 32-bit `int` that is only
-- used modulo a smaller power of two is its residue. The buffers of a reader, a writer and
-- a screen are lists with as many cells as the source's arrays. A text in `szLine`, `szPath` or another
-- array of 256 cells is a list of any length: `fits` of Explorer tells whether it fits, and what
-- builds a longer one ends in a fault, or the theorem asks that it fits. Likewise the arrays of AntTSP are
-- functions and lists, and `max_n` and `max_ant` their cells.
--
-- Bounds and fuel: a loop over a file takes more fuel than the bytes that are left; the waiting loop of
-- a socket takes `socket_max_tries` rounds and one for each event that is awaited already, and
-- `mode_loop` as many as the firmware takes to get an address. The theorems name the fuel and show that
-- it is enough. The main loop of the explorer runs on the list of the keys pressed, and the
-- search of Box on the places left. `f` of Pyramids takes one call more than the line has characters; the
-- ants of AntTsp one round more than there are cities, and `search` one more than the rounds that are
-- asked for. The loop of accept runs on the list of what the firmware signals in its rounds.
--
-- Not modelled: the functions of gnu-efi and of the firmware (they are parameters), the opening of two
-- files at one place, painting on the hardware and printing, the text of the time, connect as a whole,
-- the reading of numbers in the programs under `src/packages`, and the Windows test program under
-- `_TEST_`.
pub mod Base
pub mod Reader
pub mod Writer
pub mod File
pub mod Transfer
pub mod Task
pub mod Screen
pub mod Explorer
pub mod Console
pub mod Disk
pub mod Graphics
pub mod Socket
pub mod Box
pub mod Font
pub mod Bitmap
pub mod Pyramids
pub mod AntTsp
pub mod Boxes
pub mod Start
pub mod Examples
