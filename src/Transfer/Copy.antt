-- ===== src/Transfer/Copy.antt =====
-- The copy of cp and mv, and the count of addline.
use lavoro_l.Base.{
  ℕ, zero, suc, ◌+◌, ◌<◌, ◌≡◌, refl, Bool, true, false, some, List, [], ◌∷◌, ◌++◌, ◌∙◌, ap, arith,
  length, ◌%◌,
}
use lavoro_l.Reader.{Reader, at_end}
use lavoro_l.Reader.Source.{Source, IsValid}
use lavoro_l.Reader.Pending.{Holds, pending, next-spent, next-IsLoaded, live-pending, pending-end}
use lavoro_l.Reader.Drain.{feed, drain-feed}
use lavoro_l.Writer.{Writer, write, write_all, flush}
use lavoro_l.Writer.Laws
use lavoro_l.Writer.Laws.{Sink, accepted, low_bytes, written-flush-write_all}
use lavoro_l.Transfer.{copy, count_loop, count}

feed-write_all :
    {T : Type 0} (write_buffer : List ℕ → T → T) (bs : List ℕ) (w : Writer T)
    → feed (write write_buffer) w bs ≡ write_all write_buffer w bs
unfolding write_all
feed-write_all write_buffer [] w = refl
feed-write_all write_buffer (b ∷ bs) w = feed-write_all write_buffer bs (write write_buffer w b)

abbrev pub IsBytes : List ℕ → Type 0
IsBytes [] = Unit {0}
IsBytes (b ∷ bs) = (b < 256) × IsBytes bs

pub low_bytes-IsBytes : (bs : List ℕ) → IsBytes bs → low_bytes bs ≡ bs
low_bytes-IsBytes [] h = refl
low_bytes-IsBytes (b ∷ bs) (small, h) =
    let e : b % 256 ≡ b = omega arith in rw e (ap (λ t. b ∷ t) (low_bytes-IsBytes bs h))

-- A reader on which `Next` was not called yet.
pub record IsFresh {S : Type 0} (r : Reader S) : Type 0 where
  pub valid : IsValid r
  pub live : at_end r ≡ false
  pub spent : r.current ≡ r.size

module _ {S : Type 0} {read_buffer : Reader S → Bool × Reader S} (src : Source read_buffer) where
  -- What the copy leaves in the writer, and that the reader is then at its end.
  pub copy-write_all :
      {T : Type 0} (write_buffer : List ℕ → T → T) (fuel : ℕ) (w : Writer T) {r : Reader S}
      → IsFresh r
      → length (pending src.rest r) < fuel
      → (r' : Reader S) × (copy read_buffer write_buffer fuel w r
          ≡ some (flush write_buffer (write_all write_buffer w (pending src.rest r)), r'))
        × (at_end r' ≡ true)
  unfolding copy
  copy-write_all write_buffer fuel w {r} f l =
      let h = next-spent src f.valid f.live f.spent in
      let run = drain-feed src (write write_buffer) (pending src.rest r) fuel w h l in
      (
        run.0,
        rw (run.1, copy) (rw (feed-write_all write_buffer (pending src.rest r) w) refl),
        run.2,
      )

  -- cp and mv: with more fuel than bytes the copy ends, the source is at its end, and its bytes have
  -- reached the device of the destination in order, behind what the writer had accepted.
  pub copy_lem :
      {T : Type 0} {write_buffer : List ℕ → T → T} (sink : Sink write_buffer) (fuel : ℕ)
      {w : Writer T} {r : Reader S}
      → IsFresh r
      → IsBytes (pending src.rest r)
      → Laws.IsValid w
      → length (pending src.rest r) < fuel
      → (w' : Writer T) × (r' : Reader S) × (copy read_buffer write_buffer fuel w r ≡ some (w', r'))
        × (at_end r' ≡ true)
        × (sink.written w'.sink ≡ accepted sink w ++ pending src.rest r)
  copy_lem {write_buffer} sink fuel {w} {r} f b v l =
      let run = copy-write_all write_buffer fuel w f l in
      (
        flush write_buffer (write_all write_buffer w (pending src.rest r)),
        run.0,
        run.1,
        run.2,
        written-flush-write_all sink (pending src.rest r) w v
            ∙ ap (λ t. accepted sink w ++ t) (low_bytes-IsBytes (pending src.rest r) b),
      )

  count_loop-Holds :
      (bs : List ℕ) (fuel n : ℕ) {r : Reader S}
      → Holds src.rest r bs
      → length bs < fuel
      → (r' : Reader S) × (count_loop read_buffer fuel n r ≡ some (n + length bs, r'))
        × (at_end r' ≡ true)
  unfolding count_loop
  count_loop-Holds bs zero n h l = absurd (omega arith)
  count_loop-Holds [] (suc fuel) n {r} h l =
      let over = pending-end src.rest h.valid h.loaded h.left in
      let e : n + 0 ≡ n = omega arith in (r, rw (over, e) refl, over)
  count_loop-Holds (b ∷ bs) (suc fuel) n {r} h l =
      let e : n + suc (length bs) ≡ n + 1 + length bs = omega arith in
      rw (live-pending src.rest r h.left, e)
        (count_loop-Holds bs fuel (n + 1) (rw h.left at (next-IsLoaded src h.valid h.loaded))
          (omega arith))

  -- addline's `Position`: with more fuel than bytes it is the number of bytes of the file.
  pub count_lem :
      (fuel : ℕ) {r : Reader S}
      → IsFresh r
      → length (pending src.rest r) < fuel
      → (r' : Reader S) × (count read_buffer fuel r ≡ some (length (pending src.rest r), r'))
        × (at_end r' ≡ true)
  unfolding count
  count_lem fuel {r} f l =
      let run =
        count_loop-Holds (pending src.rest r) fuel 0 (next-spent src f.valid f.live f.spent) l in
      let e : 0 + length (pending src.rest r) ≡ length (pending src.rest r) = omega arith in
      (run.0, rw e at run.1, run.2)
