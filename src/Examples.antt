-- ===== src/Examples.antt =====
-- The theorems applied to concrete inputs: a file in memory, a queue of two tasks, small pictures and
-- fonts, directories of two names, the keys of the explorer, lines and batch files of the console, a
-- network, trees and tours of ants.
pub mod Memory
mod Bytes
mod Queue
mod Pictures
pub mod Keys
mod Network
mod Boxes
mod Fonts
mod Walks
mod Scripts
mod Letters
mod Views
mod Headers
pub mod Drive
mod Medium
mod Modes
mod Setup
