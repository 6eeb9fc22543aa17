-- ===== src/Disk/Commands.antt =====
-- `LFile::LFile`, `LFile::~LFile`, and the handlers of rm, mkdir, cp, mv, cat and addline.
use lavoro_l.Base.{
  ℕ, ◌+◌, ◌^◌, true, false, Option, none, some, List, [], ◌==◌, if◌then◌else◌, length,
}
use lavoro_l.Reader.{Reader}
use lavoro_l.Writer.{Writer}
use lavoro_l.File.{Protocol, File, read_buffer, delete}
use lavoro_l.File.AddLine.{add_line}
use lavoro_l.Transfer.{Screenful, copy, show_loop, finish}

-- What a call that opens gives: on success the pointer is set; on an error it may be.
pub data Answer (A : Type 0) : Type 0 where
  done : A → Answer A
  failed : Option A → Answer A

abbrev pub pointer : {A : Type 0} → Answer A → Option A
pointer (done a) = some a
pointer (failed o) = o

-- The calls of the firmware that change the medium. `removed` is what a `Delete` leaves of it, whose
-- answer is `Protocol.delete`.
pub record FileSystem (p : Protocol) : Type 1 where
  pub Disk : Type 0
  pub Root : Type 0
  pub open_volume : Disk → Answer Root × Disk
  pub open_path : Root → List ℕ → ℕ → ℕ → Disk → Answer p.Handle × Disk
  pub close_volume : Root → Disk → Disk
  pub close : p.Handle → Disk → Disk
  pub removed : p.Handle → Disk → Disk

-- `EFI_FILE_MODE_READ` and its combinations with WRITE and CREATE
abbrev pub mode_read : ℕ
mode_read = 1

abbrev pub mode_read_write : ℕ
mode_read_write = 3

abbrev pub mode_create : ℕ
mode_create = 2 ^ 63 + 3

-- `EFI_FILE_DIRECTORY`, `EFI_FILE_ARCHIVE`, `EFI_FILE_VALID_ATTR`
abbrev pub attribute_directory : ℕ
attribute_directory = 16

abbrev pub attribute_archive : ℕ
attribute_archive = 32

abbrev pub attribute_valid : ℕ
attribute_valid = 55

-- `fault`: a call through a handle that is null.
pub data Outcome (A : Type 0) : Type 0 where
  finished : A → Outcome A
  fault : Outcome A

module _ {p : Protocol} (fs : FileSystem p) where
  open fs use {Disk, Root, open_volume, open_path, close_volume, close, removed}

  -- `if (Volume) { Volume->Close }`
  abbrev pub close_root : Option Root → Disk → Disk
  close_root none d = d
  close_root (some root) d = close_volume root d

  abbrev pub opened_in : Root → Answer p.Handle × Disk → Option p.Handle × Disk
  opened_in root (a, d) = (pointer a, close_volume root d)

  abbrev pub within : List ℕ → ℕ → ℕ → Answer Root × Disk → Option p.Handle × Disk
  within path mode attributes (failed root, d) = (none, close_root root d)
  within path mode attributes (done root, d) =
      opened_in root (open_path root path mode attributes d)

  -- `LFile::LFile`: the path, `_Handle`, `Mode` and `Attributes`; the member `Handle`.
  unfoldable pub new_file : List ℕ → Option p.Handle → ℕ → ℕ → Disk → Option p.Handle × Disk
  new_file path (some h) mode attributes d = (some h, d)
  new_file path none mode attributes d =
      if length path == 0 then (none, d) else within path mode attributes (open_volume d)

  -- `LFile::~LFile`
  unfoldable pub delete_file : Option p.Handle → Disk → Disk
  delete_file none d = d
  delete_file (some h) d = close h d

  -- `LFile::Delete`: the member `Handle`, and the medium.
  unfoldable pub delete_handle : Option p.Handle → Disk → Option p.Handle × Disk
  delete_handle none d = (none, d)
  delete_handle (some h) d = (delete p (some h), removed h d)

  -- rm
  unfoldable pub remove_file : List ℕ → Disk → Disk
  unfolding new_file delete_handle delete_file
  remove_file path d =
      let (h, d1) = new_file path none mode_read_write attribute_valid d in
      let (h', d2) = delete_handle h d1 in delete_file h' d2

  -- mkdir
  unfoldable pub new_directory : List ℕ → Disk → Disk
  unfolding new_file delete_file
  new_directory path d =
      let (h, d1) = new_file path none mode_create attribute_directory d in delete_file h d1

  module _ (reader_cells writer_cells : List ℕ) where
    -- The reader and the writer that a new file has: their cells hold what the memory held.
    abbrev pub reader_on : p.Handle → Reader p.Handle
    reader_on h = record {
      is_text = false;
      size = 0;
      current = 0;
      buffer = reader_cells;
      source = h;
    }

    abbrev pub writer_on : {T : Type 0} → T → Writer T
    writer_on t = record { current = 0; buffer = writer_cells; sink = t }

    abbrev pub file_on : p.Handle → File p
    file_on h = record { reader = reader_on h; writer = writer_on h }

    -- The loop of cp and mv between the two files. A destination without a handle is written to as
    -- soon as `WriteBuffer` has something to write.
    unfoldable pub transfer :
        ℕ → p.Handle → Option p.Handle → Option (Outcome (p.Handle × Option p.Handle))
    transfer fuel h (some g) =
        elim (copy (read_buffer p) p.write fuel (writer_on g) (reader_on h)) [
          | none ↦ none
          | some (w, r) ↦ some (finished (r.source, some w.sink))
        ]
    transfer fuel h none =
        elim (copy (read_buffer p) (λ bytes written. true) fuel (writer_on false) (reader_on h)) [
          | none ↦ none
          | some (w, r) ↦ some (if w.sink then fault else finished (r.source, none))
        ]

    -- The end of cp and mv: `Delete` for mv, then both files are closed.
    abbrev pub close_both :
        (Option p.Handle → Disk → Option p.Handle × Disk)
        → Disk
        → Outcome (p.Handle × Option p.Handle)
        → Outcome Disk
    close_both leave d fault = fault
    close_both leave d (finished (h, g)) =
        let (h', d') = leave (some h) d in finished (delete_file g (delete_file h' d'))

    abbrev pub copy_from :
        (Option p.Handle → Disk → Option p.Handle × Disk)
        → ℕ
        → Option p.Handle
        → Option p.Handle × Disk
        → Option (Outcome Disk)
    copy_from leave fuel none (g, d) = some fault
    copy_from leave fuel (some h) (g, d) = elim (transfer fuel h g) [
      | none ↦ none
      | some out ↦ some (close_both leave d out)
    ]

    -- cp: `none` means that the fuel ran out.
    unfoldable pub copy_file : ℕ → List ℕ → List ℕ → Disk → Option (Outcome Disk)
    unfolding new_file delete_file transfer
    copy_file fuel a b d =
        let (h, d1) = new_file a none mode_read attribute_valid d in
        copy_from (λ h' d'. (h', d')) fuel h (new_file b none mode_create attribute_archive d1)

    -- mv
    unfoldable pub move_file : ℕ → List ℕ → List ℕ → Disk → Option (Outcome Disk)
    unfolding new_file delete_file transfer delete_handle
    move_file fuel a b d =
        let (h, d1) = new_file a none mode_read_write attribute_valid d in
        copy_from delete_handle fuel h (new_file b none mode_create attribute_archive d1)

    abbrev pub shown :
        Disk → Option (Screenful × Reader p.Handle) → Option (Outcome (List (List ℕ) × Disk))
    shown d none = none
    shown d (some (s, r)) = some (finished ((finish s).printed, delete_file (some r.source) d))

    abbrev pub show_from : ℕ → Option p.Handle × Disk → Option (Outcome (List (List ℕ) × Disk))
    show_from fuel (none, d) = some fault
    show_from fuel (some h, d) =
        shown d
          (show_loop (read_buffer p) fuel (record { filled = []; printed = [] }) (reader_on h))

    -- cat: what is printed, and the medium.
    unfoldable pub cat_file : ℕ → List ℕ → Disk → Option (Outcome (List (List ℕ) × Disk))
    unfolding new_file delete_file
    cat_file fuel path d = show_from fuel (new_file path none mode_read attribute_valid d)

    abbrev pub appended : Disk → Option (File p) → Option (Outcome Disk)
    appended d none = none
    appended d (some file) = some (finished (delete_file (some file.reader.source) d))

    abbrev pub append_to : ℕ → List ℕ → Option p.Handle × Disk → Option (Outcome Disk)
    append_to fuel text (none, d) = some fault
    append_to fuel text (some h, d) = appended d (add_line p fuel text (file_on h))

    -- addline
    unfoldable pub append_file : ℕ → List ℕ → List ℕ → Disk → Option (Outcome Disk)
    unfolding new_file delete_file
    append_file fuel path text d =
        append_to fuel text (new_file path none mode_create attribute_archive d)
