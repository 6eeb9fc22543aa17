-- ===== src/Explorer/Viewer/Content.antt =====
-- The text of the viewer.
use lavoro_l.Base.{ℕ, zero, suc, ◌≡◌, refl, Bool, List, [], ◌∷◌, take, ap}
use lavoro_l.Reader.{Reader}
use lavoro_l.Reader.Source.{Source}
use lavoro_l.Reader.Pending.{
  Holds, pending, current-IsLoaded, next-IsLoaded, live-pending, pending-end, next-spent,
}
use lavoro_l.Transfer.Copy.{IsFresh}
use lavoro_l.Explorer.Viewer.{content_loop, content}

module _ {S : Type 0} {read_buffer : Reader S → Bool × Reader S} (src : Source read_buffer) where
  content_loop-take :
      (n : ℕ) (bytes : List ℕ) {r : Reader S}
      → Holds src.rest r bytes
      → content_loop read_buffer n r ≡ take n bytes
  unfolding content_loop
  content_loop-take zero bytes h = refl
  content_loop-take (suc n) [] {r} h =
      let over = pending-end src.rest h.valid h.loaded h.left in rw over refl
  content_loop-take (suc n) (b ∷ bytes) {r} h =
      rw (live-pending src.rest r h.left, current-IsLoaded src h.valid h.loaded, h.left)
        (ap (λ t. b ∷ t)
          (content_loop-take n bytes (rw h.left at (next-IsLoaded src h.valid h.loaded))))

  -- Of a file that was just opened the viewer takes the first 4096 bytes, or all where it has fewer;
  -- `szContent` is never left.
  pub content_lem :
      {r : Reader S} → IsFresh r → content read_buffer r ≡ take 4096 (pending src.rest r)
  unfolding content
  content_lem {r} f =
      content_loop-take 4096 (pending src.rest r) (next-spent src f.valid f.live f.spent)
