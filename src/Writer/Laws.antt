-- ===== src/Writer/Laws.antt =====
-- The writer against the bytes that it was given.
use lavoro_l.Base.{
  ℕ, suc, ◌%◌, ◌≤◌, ◌≡◌, refl, List, [], ◌∷◌, ◌++◌, ◌==◌, arith, length, take, take-set, length-set,
  append-nil, append_assoc, Bool-cases, inl, inr, ◌∙◌, ap, sym,
}
use lavoro_l.Writer.{
  Writer, writer_buffer_size, put_buffer, flush, write, write_all, destroy, append,
}

abbrev pub low_bytes : List ℕ → List ℕ
low_bytes [] = []
low_bytes (c ∷ cs) = c % 256 ∷ low_bytes cs

-- A device that keeps all it is given: `written s` are the bytes that reached it.
pub record Sink {S : Type 0} (write_buffer : List ℕ → S → S) : Type 0 where
  pub written : S → List ℕ
  pub keeps : (bytes : List ℕ) (s : S) → written (write_buffer bytes s) ≡ written s ++ bytes

pub record IsValid {S : Type 0} (w : Writer S) : Type 0 where
  pub cells : length w.buffer ≡ writer_buffer_size
  pub fits : w.current ≤ writer_buffer_size

module _ {S : Type 0} {write_buffer : List ℕ → S → S} (sink : Sink write_buffer) where
  -- All that was given to the writer: what reached the device, and what is buffered.
  abbrev pub accepted : Writer S → List ℕ
  accepted w = sink.written w.sink ++ take w.current w.buffer

  -- `Flush` hands the whole of the buffer over, keeps the invariant and leaves the buffer empty.
  pub flush-accepted :
      (w : Writer S)
      → (sink.written (flush write_buffer w).sink ≡ accepted w)
        × (accepted (flush write_buffer w) ≡ accepted w)
  unfolding flush put_buffer
  flush-accepted w = elim (Bool-cases (w.current == 0)) [
    | inl none_left ↦ let z : w.current ≡ 0 = ground arith in rw (z, append-nil) (refl, refl)
    | inr more ↦ rw (more, append-nil) (sink.keeps _ _, sink.keeps _ _)
  ]

  pub flush-IsValid : {w : Writer S} → IsValid w → IsValid (flush write_buffer w)
  unfolding flush
  flush-IsValid v = record { cells = v.cells; fits = omega arith }

  append-accepted :
      (w : Writer S) (ch : ℕ)
      → IsValid w
      → suc w.current ≤ writer_buffer_size
      → (accepted (append write_buffer ch w) ≡ accepted w ++ ch ∷ [])
        × IsValid (append write_buffer ch w)
  append-accepted w ch v h = (
    rw (take-set w.current w.buffer ch (let c = v.cells in omega arith), append_assoc) refl,
    record { cells = length-set w.buffer w.current ch ∙ v.cells; fits = omega arith },
  )

  current-flush : (w : Writer S) → suc (flush write_buffer w).current ≤ writer_buffer_size
  unfolding flush
  current-flush w = omega arith

  -- `Write` of one character accepts its low byte, behind all that was accepted before, and keeps
  -- the invariant, also where the buffer is full and is flushed first.
  pub write-accepted :
      (w : Writer S) (ch : ℕ)
      → IsValid w
      → (accepted (write write_buffer w ch) ≡ accepted w ++ ch % 256 ∷ [])
        × IsValid (write write_buffer w ch)
  unfolding write
  write-accepted w ch v = elim (Bool-cases (w.current == writer_buffer_size)) [
    | inl full ↦
        rw (full, ← (flush-accepted w).1)
          (append-accepted (flush write_buffer w) (ch % 256) (flush-IsValid v) (current-flush w))
    | inr room ↦ rw room (append-accepted w (ch % 256) v (let f = v.fits in ground arith))
  ]

  pub write_all-accepted :
      (cs : List ℕ) (w : Writer S)
      → IsValid w
      → (accepted (write_all write_buffer w cs) ≡ accepted w ++ low_bytes cs)
        × IsValid (write_all write_buffer w cs)
  unfolding write_all
  write_all-accepted [] w v = (sym (append-nil _), v)
  write_all-accepted (c ∷ cs) w v =
      let one = write-accepted w c v in
      let rest = write_all-accepted cs (write write_buffer w c) one.1 in
      (
        rest.0
            ∙ ap (λ t. t ++ low_bytes cs) one.0
            ∙ append_assoc (accepted w) (c % 256 ∷ []) (low_bytes cs),
        rest.1,
      )

  -- Any number of characters written and then flushed: their low bytes reach the device in order and
  -- once each, behind what was accepted before.
  pub written-flush-write_all :
      (cs : List ℕ) (w : Writer S)
      → IsValid w
      → sink.written (flush write_buffer (write_all write_buffer w cs)).sink
        ≡ accepted w ++ low_bytes cs
  written-flush-write_all cs w v =
      (flush-accepted (write_all write_buffer w cs)).0 ∙ (write_all-accepted cs w v).0

  -- What the destructor's `Flush` finds in the buffer never reaches the device: with no explicit
  -- `Flush` before it, the device has what it had.
  written-destroy : (w : Writer S) → sink.written (destroy w) ≡ sink.written w.sink
  unfolding destroy flush put_buffer
  written-destroy w = ground arith
