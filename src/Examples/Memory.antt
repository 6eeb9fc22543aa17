-- ===== src/Examples/Memory.antt =====
-- A file in memory, as the firmware's protocol, and readers and writers on it.
use lavoro_l.Base.{
  ℕ, zero, suc, ◌≤◌, ◌≡◌, refl, ap, false, some, List, [], ◌∷◌, ◌++◌, arith, length, length-take,
  take, drop, replicate,
}
use lavoro_l.Reader.{Reader}
use lavoro_l.Reader.Source.{Source, IsValid}
use lavoro_l.Reader.Pending.{Holds}
use lavoro_l.Reader.ReadLine.{IsReady, fresh}
use lavoro_l.Writer.{Writer}
use lavoro_l.Writer.Laws
use lavoro_l.Writer.Laws.{Sink}
use lavoro_l.File.{Protocol, read_buffer}
use lavoro_l.File.Seek.{IsSeekable}
use lavoro_l.File.Source.{IsReliable, file_source}
use lavoro_l.Transfer.Copy.{IsFresh}

-- A handle is the bytes from its position on, as long as it is read, or all that was written.
abbrev pub store : List ℕ → List ℕ → List ℕ
store bytes h = h ++ bytes

abbrev pub memory : Protocol
memory = record {
  Handle = List ℕ;
  read = λ k h. (record { failed = false; bytes = take k h }, drop k h);
  write = store;
  get_position = λ h. some (length h);
  set_position = λ n h. drop n h;
  delete = λ h. false;
}

pub take-drop : (k : ℕ) (h : List ℕ) → h ≡ take k h ++ drop k h
take-drop zero h = refl
take-drop (suc k) [] = refl
take-drop (suc k) (b ∷ h) = ap (λ t. b ∷ t) (take-drop k h)

pub take-nil : (k : ℕ) (h : List ℕ) → 1 ≤ k → take k h ≡ [] → h ≡ []
take-nil zero h l e = absurd (omega arith)
take-nil (suc k) [] l e = refl
take-nil (suc k) (b ∷ h) l e = absurd (cc)

abbrev pub reliable : IsReliable memory
reliable = record {
  rest = λ h. h;
  no_failure = λ k h. refl;
  at_most = λ k h. omega (arith, length-take k h);
  advances = take-drop;
  ends = take-nil;
}

abbrev pub file : Source (read_buffer memory)
file = file_source reliable

abbrev pub sink : Sink store
sink = record { written = λ h. h; keeps = λ bytes h. refl }

-- A reader that was not used, on a file of these bytes.
abbrev pub opened : List ℕ → Reader (List ℕ)
opened bytes = record {
  is_text = false;
  size = 0;
  current = 0;
  buffer = replicate 128 0;
  source = bytes;
}

pub opened-IsValid : (bytes : List ℕ) → IsValid (opened bytes)
opened-IsValid bytes = record {
  binary = refl;
  cells = refl;
  ordered = λ h. omega arith;
  bounded = λ h. omega arith;
}

pub opened-IsFresh : (bytes : List ℕ) → IsFresh (opened bytes)
opened-IsFresh bytes = record { valid = opened-IsValid bytes; live = refl; spent = refl }

pub opened-IsReady : (b : ℕ) (bytes : List ℕ) → IsReady file.rest (opened (b ∷ bytes)) (b ∷ bytes)
opened-IsReady b bytes = fresh (opened-IsValid (b ∷ bytes)) refl refl (λ e. cc) refl

-- A reader with two bytes in its buffer, the second of which is at hand, and one more in the file.
abbrev pub halfway : Reader (List ℕ)
halfway = record {
  is_text = false;
  size = 2;
  current = 1;
  buffer = 7 ∷ 8 ∷ replicate 126 0;
  source = 9 ∷ [];
}

pub halfway-Holds : Holds file.rest halfway (8 ∷ 9 ∷ [])
halfway-Holds = record {
  valid = record {
    binary = refl;
    cells = refl;
    ordered = λ h. omega arith;
    bounded = λ h. omega arith;
  };
  loaded = λ h. omega arith;
  left = refl;
}

-- A writer whose buffer is full, and one with two bytes in it.
abbrev pub full : Writer (List ℕ)
full = record { current = 128; buffer = replicate 128 65; sink = 1 ∷ [] }

abbrev pub partly : Writer (List ℕ)
partly = record { current = 2; buffer = 66 ∷ 67 ∷ replicate 126 0; sink = 1 ∷ [] }

pub full-IsValid : Laws.IsValid full
full-IsValid = record { cells = refl; fits = omega arith }

pub partly-IsValid : Laws.IsValid partly
partly-IsValid = record { cells = refl; fits = omega arith }

-- A file as the bytes before its position and those behind it.
abbrev pub tape : Protocol
tape = record {
  Handle = List ℕ × List ℕ;
  read = λ k h. (record { failed = false; bytes = take k h.1 }, (h.0 ++ take k h.1, drop k h.1));
  write = λ bytes h. (h.0 ++ bytes, drop (length bytes) h.1);
  get_position = λ h. some (length h.0);
  set_position = λ n h. (take n (h.0 ++ h.1), drop n (h.0 ++ h.1));
  delete = λ h. false;
}

abbrev pub seekable : IsSeekable tape
seekable = record {
  reliable = record {
    rest = λ h. h.1;
    no_failure = λ k h. refl;
    at_most = λ k h. omega (arith, length-take k h.1);
    advances = λ k h. take-drop k h.1;
    ends = λ k h. take-nil k h.1;
  };
  passed = λ h. h.0;
  read_passed = λ k h. refl;
  write_passed = λ bytes h. refl;
  write_rest = λ bytes h. refl;
  seek_passed = λ n h. refl;
  seek_rest = λ n h. refl;
}
