-- ===== src/Writer.antt =====
-- `LWriter` of src/lwriter.hpp: a buffered writer over a virtual `WriteBuffer`. A derived class's
-- `WriteBuffer` hands the first `current` cells to its device, whose state `sink` is all it changes:
-- it is the parameter `write_buffer : List ℕ → S → S`.
pub mod Laws
pub mod Kept
use lavoro_l.Base.{ℕ, ◌+◌, ◌%◌, Bool, List, [], ◌∷◌, ◌==◌, if◌then◌else◌, set, take}

abbrev pub writer_buffer_size : ℕ
writer_buffer_size = 128

pub record Writer (S : Type 0) : Type 0 where
  pub current : ℕ
  pub buffer : List ℕ
  pub sink : S

module _ {S : Type 0} where
  -- `LWriter::Reset`
  unfoldable pub reset : Writer S → Writer S
  reset w = record w { current = 0 }

  module _ (write_buffer : List ℕ → S → S) where
    -- `LFileWriter::WriteBuffer` and `LSocketWriter::WriteBuffer`: nothing is written where nothing
    -- is buffered.
    unfoldable pub put_buffer : Writer S → S
    put_buffer w = if w.current == 0 then w.sink else write_buffer (take w.current w.buffer) w.sink

    -- `LWriter::Flush`
    unfoldable pub flush : Writer S → Writer S
    unfolding put_buffer
    flush w = record w { current = 0; sink = put_buffer w }

    abbrev append : ℕ → Writer S → Writer S
    append ch w = record w { current = w.current + 1; buffer = set w.buffer w.current ch }

    -- `LWriter::Write` of one `unsigned char`
    unfoldable pub write : Writer S → ℕ → Writer S
    write w ch = append (ch % 256) (if w.current == writer_buffer_size then flush w else w)

    -- `LWriter::Write` of an array: of `unsigned char`, or of CHAR16, whose low bytes are kept.
    unfoldable pub write_all : Writer S → List ℕ → Writer S
    write_all w [] = w
    write_all w (c ∷ cs) = write_all (write w c) cs

  -- `LWriter::~LWriter`: while the base class's destructor runs, `Flush` calls the empty
  -- `LWriter::WriteBuffer`.
  unfoldable pub destroy : Writer S → S
  unfolding flush
  destroy w = (flush (λ bytes s. s) w).sink
