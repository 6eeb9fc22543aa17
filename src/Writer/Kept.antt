-- ===== src/Writer/Kept.antt =====
-- What the operations of the writer keep of its device, and how far they move over a file.
use lavoro_l.Base.{
  ℕ, zero, suc, ◌+◌, ◌≡◌, refl, List, [], ◌∷◌, arith, length, length-take, take, drop, ◌∙◌, ap,
  ◌==◌, Bool-cases, inl, inr,
}
use lavoro_l.Writer.{Writer, writer_buffer_size, put_buffer, flush, write, write_all}
use lavoro_l.Writer.Laws
use lavoro_l.Reader.Kept.{either}

-- A fact of the device that `WriteBuffer` keeps.
module _ {T B : Type 0} (kept : T → B) (write_buffer : List ℕ → T → T)
    (keeps : (bytes : List ℕ) (t : T) → kept (write_buffer bytes t) ≡ kept t) where
  pub flush-sink : (w : Writer T) → kept (flush write_buffer w).sink ≡ kept w.sink
  unfolding flush put_buffer
  flush-sink w = either kept (w.current == 0) refl (keeps _ _)

  write-sink : (w : Writer T) (c : ℕ) → kept (write write_buffer w c).sink ≡ kept w.sink
  unfolding write
  write-sink w c =
      either (λ (v : Writer T). kept v.sink) (w.current == writer_buffer_size) (flush-sink w) refl

  pub write_all-sink :
      (cs : List ℕ) (w : Writer T) → kept (write_all write_buffer w cs).sink ≡ kept w.sink
  unfolding write_all
  write_all-sink [] w = refl
  write_all-sink (c ∷ cs) w = write_all-sink cs (write write_buffer w c) ∙ write-sink w c

drop-drop : (m n : ℕ) (xs : List ℕ) → drop m (drop n xs) ≡ drop (n + m) xs
drop-drop m zero xs = let e : 0 + m ≡ m = omega arith in rw e refl
drop-drop zero (suc n) [] = let e : suc n + 0 ≡ suc n = omega arith in rw e refl
drop-drop (suc m) (suc n) [] = let e : suc n + suc m ≡ suc (suc (n + m)) = omega arith in rw e refl
drop-drop m (suc n) (x ∷ xs) =
    let e : suc n + m ≡ suc (n + m) = omega arith in rw e (drop-drop m n xs)

-- A device with bytes behind its position, of which a write takes the place.
module _ {T : Type 0} (rest : T → List ℕ) {write_buffer : List ℕ → T → T}
    (sink : Laws.Sink write_buffer)
    (covers : (bytes : List ℕ) (t : T)
      → rest (write_buffer bytes t) ≡ drop (length bytes) (rest t)) where
  -- What is left behind the position once the buffer is written.
  abbrev pub left : Writer T → List ℕ
  left w = drop w.current (rest w.sink)

  pub flush-left : (w : Writer T) → Laws.IsValid w → rest (flush write_buffer w).sink ≡ left w
  unfolding flush put_buffer
  flush-left w v = elim (Bool-cases (w.current == 0)) [
    | inl empty ↦ let z : w.current ≡ 0 = ground arith in rw z refl
    | inr more ↦
        let n : length (take w.current w.buffer) ≡ w.current =
          let c = v.cells in let f = v.fits in omega (arith, length-take w.current w.buffer) in
        rw more (covers _ _ ∙ rw n refl)
  ]

  write-left :
      (w : Writer T) (c : ℕ) → Laws.IsValid w → left (write write_buffer w c) ≡ drop 1 (left w)
  unfolding write flush
  write-left w c v = elim (Bool-cases (w.current == writer_buffer_size)) [
    | inl full ↦ rw full (ap (drop 1) (flush-left w v))
    | inr room ↦ rw (room, drop-drop) refl
  ]

  pub write_all-left :
      (cs : List ℕ) (w : Writer T)
      → Laws.IsValid w
      → left (write_all write_buffer w cs) ≡ drop (length cs) (left w)
  unfolding write_all
  write_all-left [] w v = refl
  write_all-left (c ∷ cs) w v =
      write_all-left cs (write write_buffer w c) (Laws.write-accepted sink w c v).1
      ∙ ap (drop (length cs)) (write-left w c v)
      ∙ drop-drop (length cs) 1 (left w)
      ∙ ap (λ n. drop n (left w)) {y = suc (length cs)} (omega arith)
