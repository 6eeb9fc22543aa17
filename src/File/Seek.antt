-- ===== src/File/Seek.antt =====
-- A file with a position: what its protocol promises, and what reading and writing keep of it.
use lavoro_l.Base.{
  ℕ, zero, suc, ◌%◌, ◌≡◌, refl, ◌==◌, List, [], ◌∷◌, ◌++◌, arith, length, length-drop, append_assoc,
  take, drop, ◌∙◌, ap, sym, Bool-cases, inl, inr,
}
use lavoro_l.Reader.{Reader, at_end}
use lavoro_l.Writer
use lavoro_l.Writer.{Writer, writer_buffer_size, put_buffer, write}
use lavoro_l.Writer.Laws.{Sink, low_bytes}
use lavoro_l.File.{Protocol, read_buffer}
use lavoro_l.File.Source.{IsReliable, nil_of_length}
use lavoro_l.Reader.Kept.{either}

-- What the UEFI specification says of an open file with a position: the bytes before it and those
-- behind it. `Read` and `Write` move over their bytes, and `Write` takes the place of those that it
-- finds; `SetPosition` divides the file at its argument.
pub record IsSeekable (p : Protocol) : Type 0 where
  pub reliable : IsReliable p
  pub passed : p.Handle → List ℕ
  pub read_passed :
      (k : ℕ) (h : p.Handle) → passed (p.read k h).1 ≡ passed h ++ (p.read k h).0.bytes
  pub write_passed : (bytes : List ℕ) (h : p.Handle) → passed (p.write bytes h) ≡ passed h ++ bytes
  pub write_rest :
      (bytes : List ℕ) (h : p.Handle)
      → reliable.rest (p.write bytes h) ≡ drop (length bytes) (reliable.rest h)
  pub seek_passed :
      (n : ℕ) (h : p.Handle) → passed (p.set_position n h) ≡ take n (passed h ++ reliable.rest h)
  pub seek_rest :
      (n : ℕ) (h : p.Handle)
      → reliable.rest (p.set_position n h) ≡ drop n (passed h ++ reliable.rest h)

abbrev nothing : List ℕ
nothing = []

drop-nil : (n : ℕ) → drop n [] ≡ nothing
drop-nil zero = refl
drop-nil (suc n) = refl

pub drop-all : (bytes : List ℕ) → drop (length bytes) bytes ≡ []
drop-all bytes =
    nil_of_length (drop (length bytes) bytes) (omega (arith, length-drop (length bytes) bytes))

pub take-all : (bytes : List ℕ) → take (length bytes) bytes ≡ bytes
take-all [] = refl
take-all (b ∷ bytes) = ap (λ t. b ∷ t) (take-all bytes)

pub low_bytes-append : (as' bs : List ℕ) → low_bytes (as' ++ bs) ≡ low_bytes as' ++ low_bytes bs
low_bytes-append [] bs = refl
low_bytes-append (a ∷ as') bs = ap (λ t. a % 256 ∷ t) (low_bytes-append as' bs)

module _ {p : Protocol} (m : IsSeekable p) where
  -- The bytes of the file.
  abbrev pub contents : p.Handle → List ℕ
  contents h = m.passed h ++ m.reliable.rest h

  pub read_buffer-contents :
      (r : Reader p.Handle) → contents (read_buffer p r).1.source ≡ contents r.source
  unfolding read_buffer
  read_buffer-contents r = elim (Bool-cases (at_end r)) [
    | inl over ↦ rw over refl
    | inr live ↦
        rw (live, m.reliable.no_failure 127 r.source, m.read_passed 127 r.source)
          (append_assoc (m.passed r.source) _ _
            ∙ ap (λ t. m.passed r.source ++ t) (sym (m.reliable.advances 127 r.source)))
  ]

  abbrev pub device : Sink p.write
  device = record { written = m.passed; keeps = m.write_passed }

  -- Nothing behind the position: so it stays while a writer writes.
  put_buffer-last :
      (w : Writer p.Handle)
      → m.reliable.rest w.sink ≡ []
      → m.reliable.rest (put_buffer p.write w) ≡ []
  unfolding put_buffer
  put_buffer-last w h =
      let n = length (take w.current w.buffer) in
      either m.reliable.rest (w.current == 0) h (m.write_rest _ _ ∙ ap (drop n) h ∙ drop-nil n)

  pub flush-last :
      (w : Writer p.Handle)
      → m.reliable.rest w.sink ≡ []
      → m.reliable.rest (Writer.flush p.write w).sink ≡ []
  unfolding Writer.flush
  flush-last w h = put_buffer-last w h

  write-last :
      (w : Writer p.Handle) (c : ℕ)
      → m.reliable.rest w.sink ≡ []
      → m.reliable.rest (write p.write w c).sink ≡ []
  unfolding write
  write-last w c h =
      either (λ (v : Writer p.Handle). m.reliable.rest v.sink) (w.current == writer_buffer_size)
        (flush-last w h) h

  pub write_all-last :
      (cs : List ℕ) (w : Writer p.Handle)
      → m.reliable.rest w.sink ≡ []
      → m.reliable.rest (Writer.write_all p.write w cs).sink ≡ []
  unfolding Writer.write_all
  write_all-last [] w h = h
  write_all-last (c ∷ cs) w h = write_all-last cs (write p.write w c) (write-last w c h)
