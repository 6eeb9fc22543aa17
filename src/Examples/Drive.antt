-- ===== src/Examples/Drive.antt =====
-- A medium in memory: its files are a function of their paths.
use lavoro_l.Base.{
  ℕ, ◌+◌, ◌-◌, ◌≡◌, ◌≢◌, refl, true, false, Option, none, some, List, [], ◌∷◌, ◌++◌, arith, length,
  length-take, take, drop, ◌==◌, if◌then◌else◌, Bool-cases, inl, inr,
}
use lavoro_l.Console.Dispatch.{same}
use lavoro_l.File.{Protocol}
use lavoro_l.File.Seek.{IsSeekable}
use lavoro_l.Disk.Commands.{Answer, done, failed, FileSystem, mode_create, pointer}
use lavoro_l.Disk.Lawful.{IsLawful}
use lavoro_l.Disk.Copied.{bytes_of}
use lavoro_l.Disk.Balance.{opened, held, Counts}
use lavoro_l.Examples.Memory.{take-drop, take-nil}

-- An open file: its path, and the bytes before its position and behind it.
abbrev pub OpenFile : Type 0
OpenFile = record { path : List ℕ; before : List ℕ; behind : List ℕ }

abbrev pub cabinet : Protocol
cabinet = record {
  Handle = OpenFile;
  read = λ k h. (
    record { failed = false; bytes = take k h.behind },
    record h { before = h.before ++ take k h.behind; behind = drop k h.behind },
  );
  write = λ bytes h. record h { before = h.before ++ bytes; behind = drop (length bytes) h.behind };
  get_position = λ h. some (length h.before);
  set_position = λ n h. record h {
    before = take n (h.before ++ h.behind);
    behind = drop n (h.before ++ h.behind);
  };
  delete = λ h. true;
}

abbrev pub seekable : IsSeekable cabinet
seekable = record {
  reliable = record {
    rest = λ h. h.behind;
    no_failure = λ k h. refl;
    at_most = λ k h. omega (arith, length-take k h.behind);
    advances = λ k h. take-drop k h.behind;
    ends = λ k h. take-nil k h.behind;
  };
  passed = λ h. h.before;
  read_passed = λ k h. refl;
  write_passed = λ bytes h. refl;
  write_rest = λ bytes h. refl;
  seek_passed = λ n h. refl;
  seek_rest = λ n h. refl;
}

-- The files by their paths, and how many handles and volumes are open.
abbrev pub Drive : Type 0
Drive = record { files : List ℕ → Option (List ℕ); open_now : ℕ }

abbrev pub put : List ℕ → Option (List ℕ) → Drive → Drive
put path file d = record d { files = λ q. if same q path then file else d.files q }

abbrev pub open_file : List ℕ → ℕ → Option (List ℕ) → Drive → Answer OpenFile × Drive
open_file path mode (some bytes) d = (
  done (record { path = path; before = []; behind = bytes }),
  record d { open_now = d.open_now + 1 },
)
open_file path mode none d =
    if mode == mode_create
    then (
      done (record { path = path; before = []; behind = [] }),
      record (put path (some []) d) { open_now = d.open_now + 1 },
    )
    else (failed none, d)

abbrev pub drive : FileSystem cabinet
drive = record {
  Disk = Drive;
  Root = Unit {0};
  open_volume = λ d. (done tt, record d { open_now = d.open_now + 1 });
  open_path = λ r path mode attributes d. open_file path mode (d.files path) d;
  close_volume = λ r d. record d { open_now = d.open_now - 1 };
  close = λ h d. record (put h.path (some (h.before ++ h.behind)) d) { open_now = d.open_now - 1 };
  removed = λ h d. record (put h.path none d) { open_now = d.open_now - 1 };
}

same_refl : (path : List ℕ) → same path path ≡ true
same_refl [] = refl
same_refl (c ∷ path) = ground (arith, same_refl path)

eq_of_same : (a b : List ℕ) → same a b ≡ true → a ≡ b
eq_of_same [] [] e = refl
eq_of_same [] (y ∷ b) e = absurd (cc)
eq_of_same (x ∷ a) [] e = absurd (cc)
eq_of_same (x ∷ a) (y ∷ b) e = ground (arith, eq_of_same a b)

pub put-there :
    (path : List ℕ) (file : Option (List ℕ)) (d : Drive) → (put path file d).files path ≡ file
put-there path file d = rw (same_refl path) refl

pub put-others :
    (path : List ℕ) (file : Option (List ℕ)) (d : Drive) (q : List ℕ)
    → q ≢ path
    → (put path file d).files q ≡ d.files q
put-others path file d q apart = elim (Bool-cases (same q path)) [
  | inl e ↦ absurd (apart (eq_of_same q path e))
  | inr e ↦ rw e refl
]

pub open_others :
    (path : List ℕ) (mode : ℕ) (file : Option (List ℕ)) (d : Drive) (q : List ℕ)
    → q ≢ path
    → (open_file path mode file d).1.files q ≡ d.files q
open_others path mode (some bytes) d q apart = refl
open_others path mode none d q apart = elim (Bool-cases (mode == mode_create)) [
  | inl e ↦ rw e (put-others path (some []) d q apart)
  | inr e ↦ rw e refl
]

pub open_count :
    (path : List ℕ) (mode : ℕ) (file : Option (List ℕ)) (d : Drive)
    → (open_file path mode file d).1.open_now
      ≡ d.open_now + held (opened (open_file path mode file d).0)
open_count path mode (some bytes) d = refl
open_count path mode none d = elim (Bool-cases (mode == mode_create)) [
  | inl e ↦ rw e refl
  | inr e ↦ rw e (omega arith)
]

pub path_null :
    (path : List ℕ) (mode : ℕ) (file : Option (List ℕ)) (d : Drive)
    → pointer (open_file path mode file d).0 ≡ opened (open_file path mode file d).0
path_null path mode (some bytes) d = refl
path_null path mode none d = elim (Bool-cases (mode == mode_create)) [
  | inl e ↦ rw e refl
  | inr e ↦ rw e refl
]

abbrev pub lawful : IsLawful seekable drive
lawful = record {
  Place = List ℕ;
  place = λ path. path;
  lookup = λ d q. d.files q;
  spot = λ h. h.path;
  root = λ d. tt;
  read_spot = λ k h. refl;
  write_spot = λ bytes h. refl;
  seek_spot = λ n h. refl;
  volume_opens = λ d. refl;
  volume_lookup = λ d q. refl;
  root_lookup = λ r d q. refl;
  opened = λ r path mode attributes d. record {
    path = path;
    before = [];
    behind = bytes_of (d.files path);
  };
  opens = λ r path mode attributes d bytes found. rw found (refl, refl, refl, refl);
  creates = λ r path attributes d missing. rw missing (refl, refl, refl, refl);
  open_lookup = λ r path mode attributes d q apart. open_others path mode (d.files path) d q apart;
  close_there = λ h d. put-there h.path (some (h.before ++ h.behind)) d;
  close_lookup = λ h d q apart. put-others h.path (some (h.before ++ h.behind)) d q apart;
  deletes = λ h. refl;
  removed_there = λ h d. put-there h.path none d;
  removed_lookup = λ h d q apart. put-others h.path none d q apart;
}

abbrev pub counted : Counts drive
counted = record {
  count = λ d. d.open_now;
  volume_count = λ d. refl;
  open_count = λ r path mode attributes d. open_count path mode (d.files path) d;
  volume_null = λ d. refl;
  path_null = λ r path mode attributes d. path_null path mode (d.files path) d;
  root_count = λ r d. refl;
  close_count = λ h d. refl;
  removed_count = λ h d. refl;
}
