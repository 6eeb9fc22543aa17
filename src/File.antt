-- ===== src/File.antt =====
-- src/lfile.hpp and src/lfile.cpp: `LFile` with its `LFileReader` and `LFileWriter`, over the
-- firmware's EFI_FILE protocol, which is the parameter `Protocol`. A handle is a value that holds
-- what the firmware knows of the open file; the reader's `source` is the file's one handle, and the
-- writer is given it when it writes. A file whose `Open` failed has the handle `none`.
pub mod Source
pub mod Seek
pub mod AddLine
use lavoro_l.Base.{
  ℕ, ◌+◌, ◌-◌, ◌^◌, Bool, true, false, ◌&&◌, Option, none, some, List, [], ◌∷◌, ◌++◌, ◌==◌, not,
  if◌then◌else◌, length, drop,
}
use lavoro_l.Reader.{Reader, at_end, reader_buffer_size, reset as reset_reader}
use lavoro_l.Writer.{Writer, reset as reset_writer, flush as flush_writer, write_all as write_chars}

-- What one call of the protocol's `Read` gives: an error status, and the bytes put into the buffer.
pub record Chunk : Type 0 where
  pub failed : Bool
  pub bytes : List ℕ

-- The functions of EFI_FILE that the code calls; `none` is an error status.
pub record Protocol : Type 1 where
  pub Handle : Type 0
  pub read : ℕ → Handle → Chunk × Handle
  pub write : List ℕ → Handle → Handle
  pub get_position : Handle → Option ℕ
  pub set_position : ℕ → Handle → Handle
  pub delete : Handle → Bool

-- `InvalidPosition`
abbrev pub invalid_position : ℕ
invalid_position = 2 ^ 64 - 1

module _ (p : Protocol) where
  -- `LFileReader::ReadBuffer` on an open file
  unfoldable pub read_buffer : Reader p.Handle → Bool × Reader p.Handle
  read_buffer r =
      let (chunk, handle) = p.read (reader_buffer_size - 1) r.source in
      let r' : Reader p.Handle = record r {
        current = 0;
        size = length chunk.bytes;
        buffer = chunk.bytes ++ drop (length chunk.bytes) r.buffer;
        source = handle;
      } in
      if at_end r
      then (false, r)
      else if chunk.failed
      then (false, r')
      else (not (r'.current == r'.size), r')

  -- `LFile`: an opened file.
  pub record File : Type 0 where
    pub reader : Reader p.Handle
    pub writer : Writer p.Handle

  -- `LFile::Position`
  unfoldable pub position : Option p.Handle → ℕ
  position none = invalid_position
  position (some h) = elim (p.get_position h) [ none ↦ invalid_position | some n ↦ n ]

  -- `LFile::Exists`
  unfoldable pub exists : Option p.Handle → Bool
  exists none = false
  exists (some h) = true

  -- `LFile::Delete`: the handle is given up where the firmware reports success.
  unfoldable pub delete : Option p.Handle → Option p.Handle
  delete none = none
  delete (some h) = if p.delete h then none else some h

  -- The writer runs on the file's handle.
  unfoldable pub on_writer : (Writer p.Handle → Writer p.Handle) → File → File
  on_writer f file =
      let w : Writer p.Handle = f (record file.writer { sink = file.reader.source }) in
      record { reader = record file.reader { source = w.sink }; writer = w }

  unfoldable pub flush : File → File
  unfolding on_writer
  flush file = on_writer (flush_writer p.write) file

  unfoldable pub write_all : List ℕ → File → File
  unfolding on_writer
  write_all cs file = on_writer (λ w. write_chars p.write w cs) file

  -- `LFile::SetPosition`
  unfoldable pub set_position : ℕ → File → File
  unfolding on_writer
  set_position n file =
      on_writer
        (λ w.
          let w' = reset_writer (flush_writer p.write w) in
          record w' { sink = p.set_position n w'.sink })
        (record file { reader = reset_reader file.reader })
