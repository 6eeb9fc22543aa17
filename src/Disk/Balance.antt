-- ===== src/Disk/Balance.antt =====
-- Handles and volumes that are open: each command closes what it has opened, whichever calls of the
-- firmware fail, `Delete` apart. A `Delete` that fails has closed its handle too, and the destructor
-- then closes it once more.
use lavoro_l.Base.{ℕ, ◌+◌, ◌-◌, ◌≡◌, Option, none, some, List}
use lavoro_l.File.{Protocol, File}
use lavoro_l.Disk.Commands.{Answer, done, failed, pointer, FileSystem, Outcome, finished, fault}

abbrev pub held : {A : Type 0} → Option A → ℕ
held none = 0
held (some a) = 1

abbrev pub opened : {A : Type 0} → Answer A → Option A
opened (done a) = some a
opened (failed o) = none

-- How many handles and volumes are open. A call that opens without an error adds one, and `Close` and
-- `Delete` take theirs off, `Delete` on an error as well. A call that fails leaves the pointer that it
-- is given null.
pub record Counts {p : Protocol} (fs : FileSystem p) : Type 0 where
  pub count : fs.Disk → ℕ
  pub volume_count :
      (d : fs.Disk) → count (fs.open_volume d).1 ≡ count d + held (opened (fs.open_volume d).0)
  pub volume_null : (d : fs.Disk) → pointer (fs.open_volume d).0 ≡ opened (fs.open_volume d).0
  pub open_count :
      (r : fs.Root) (path : List ℕ) (mode attributes : ℕ) (d : fs.Disk)
      → count (fs.open_path r path mode attributes d).1
        ≡ count d + held (opened (fs.open_path r path mode attributes d).0)
  pub path_null :
      (r : fs.Root) (path : List ℕ) (mode attributes : ℕ) (d : fs.Disk)
      → pointer (fs.open_path r path mode attributes d).0
        ≡ opened (fs.open_path r path mode attributes d).0
  pub root_count : (r : fs.Root) (d : fs.Disk) → count (fs.close_volume r d) ≡ count d - 1
  pub close_count : (h : p.Handle) (d : fs.Disk) → count (fs.close h d) ≡ count d - 1
  pub removed_count : (h : p.Handle) (d : fs.Disk) → count (fs.removed h d) ≡ count d - 1

module _ {p : Protocol} {fs : FileSystem p} (c : Counts fs) where
  module _ (reader_cells writer_cells : List ℕ) where
    -- What a run that ends without a fault leaves open.
    abbrev pub Keeps : ℕ → Option (Outcome fs.Disk) → Type 0
    Keeps n none = Unit {0}
    Keeps n (some fault) = Unit {0}
    Keeps n (some (finished d)) = c.count d ≡ n
