-- ===== src/Reader/ReadBlock.antt =====
-- `LReader::Read`: how many bytes it takes, and which.
use lavoro_l.Base.{ℕ, zero, suc, ◌≡◌, refl, ap, Bool, List, [], ◌∷◌, take, drop}
use lavoro_l.Reader.{Reader, read}
use lavoro_l.Reader.Source.{Source}
use lavoro_l.Reader.Pending.{Holds, current-IsLoaded, next-IsLoaded, live-pending, pending-end}

-- `Read` of `n` bytes gives the next `n` bytes, or all of them where fewer are left, and leaves the
-- reader before the rest.
pub read-take :
    {S : Type 0} {read_buffer : Reader S → Bool × Reader S} (src : Source read_buffer) (n : ℕ)
    (bs : List ℕ) {r : Reader S}
    → Holds src.rest r bs
    → ((read read_buffer n r).0 ≡ take n bs) × Holds src.rest (read read_buffer n r).1 (drop n bs)
unfolding read
read-take src zero bs h = (refl, h)
read-take src (suc n) [] h = rw (pending-end src.rest h.valid h.loaded h.left) (refl, h)
read-take src (suc n) (b ∷ bs) {r} h =
    rw (live-pending src.rest r h.left, current-IsLoaded src h.valid h.loaded, h.left)
      (let rest = read-take src n bs (rw h.left at (next-IsLoaded src h.valid h.loaded)) in
        (ap (λ t. b ∷ t) rest.0, rest.1))
