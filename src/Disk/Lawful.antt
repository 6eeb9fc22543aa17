-- ===== src/Disk/Lawful.antt =====
-- What the UEFI specification says of a medium that does not fail. A path stands for a place, and
-- two paths may stand for the same one; `lookup` gives the bytes of the file at a place.
use lavoro_l.Base.{ℕ, ◌≡◌, ◌≢◌, true, Option, none, some, List, []}
use lavoro_l.File.{Protocol}
use lavoro_l.File.Seek.{IsSeekable, contents}
use lavoro_l.Disk.Commands.{done, FileSystem, mode_create}

-- The calls are those of a program that has no place open twice.
pub record IsLawful {p : Protocol} (m : IsSeekable p) (fs : FileSystem p) : Type 1 where
  pub Place : Type 0
  pub place : List ℕ → Place
  pub lookup : fs.Disk → Place → Option (List ℕ)
  pub spot : p.Handle → Place
  pub root : fs.Disk → fs.Root
  pub read_spot : (k : ℕ) (h : p.Handle) → spot (p.read k h).1 ≡ spot h
  pub write_spot : (bytes : List ℕ) (h : p.Handle) → spot (p.write bytes h) ≡ spot h
  pub seek_spot : (n : ℕ) (h : p.Handle) → spot (p.set_position n h) ≡ spot h
  pub volume_opens : (d : fs.Disk) → (fs.open_volume d).0 ≡ done (root d)
  pub volume_lookup : (d : fs.Disk) (q : Place) → lookup (fs.open_volume d).1 q ≡ lookup d q
  pub root_lookup :
      (r : fs.Root) (d : fs.Disk) (q : Place) → lookup (fs.close_volume r d) q ≡ lookup d q
  pub opened : fs.Root → List ℕ → ℕ → ℕ → fs.Disk → p.Handle
  -- A file that is there is opened at its start; with CREATE also one that is not, and it is empty.
  pub opens :
      (r : fs.Root) (path : List ℕ) (mode attributes : ℕ) (d : fs.Disk) (bytes : List ℕ)
      → lookup d (place path) ≡ some bytes
      → ((fs.open_path r path mode attributes d).0 ≡ done (opened r path mode attributes d))
        × (spot (opened r path mode attributes d) ≡ place path)
        × (m.passed (opened r path mode attributes d) ≡ [])
        × (m.reliable.rest (opened r path mode attributes d) ≡ bytes)
  pub creates :
      (r : fs.Root) (path : List ℕ) (attributes : ℕ) (d : fs.Disk)
      → lookup d (place path) ≡ none
      → ((fs.open_path r path mode_create attributes d).0
          ≡ done (opened r path mode_create attributes d))
        × (spot (opened r path mode_create attributes d) ≡ place path)
        × (m.passed (opened r path mode_create attributes d) ≡ [])
        × (m.reliable.rest (opened r path mode_create attributes d) ≡ [])
  pub open_lookup :
      (r : fs.Root) (path : List ℕ) (mode attributes : ℕ) (d : fs.Disk) (q : Place)
      → q ≢ place path
      → lookup (fs.open_path r path mode attributes d).1 q ≡ lookup d q
  -- A closed file has its bytes on the medium, and a deleted one is gone.
  pub close_there :
      (h : p.Handle) (d : fs.Disk) → lookup (fs.close h d) (spot h) ≡ some (contents m h)
  pub close_lookup :
      (h : p.Handle) (d : fs.Disk) (q : Place) → q ≢ spot h → lookup (fs.close h d) q ≡ lookup d q
  pub deletes : (h : p.Handle) → p.delete h ≡ true
  pub removed_there : (h : p.Handle) (d : fs.Disk) → lookup (fs.removed h d) (spot h) ≡ none
  pub removed_lookup :
      (h : p.Handle) (d : fs.Disk) (q : Place) → q ≢ spot h → lookup (fs.removed h d) q ≡ lookup d q
