-- ===== src/Reader/Kept.antt =====
-- A fact of the source that `ReadBuffer` keeps is kept by the operations of the reader and by the loops.
use lavoro_l.Base.{ℕ, zero, suc, ◌+◌, ◌≡◌, refl, ◌==◌, if◌then◌else◌, Bool, true, false, ◌∙◌}
use lavoro_l.Reader.{
  read, Reader, at_end, current, next, refill, after_read, loaded_current, text_end,
}

-- What both branches of a conditional have.
pub either :
    {A C : Type 0} (f : A → C) (b : Bool) {x y : A} {v : C}
    → f x ≡ v
    → f y ≡ v
    → f (if b then x else y) ≡ v
either f true ex ey = ex
either f false ex ey = ey

-- A fact of the source that `ReadBuffer` keeps is kept by the loops over the reader.
module _ {S B : Type 0} (kept : S → B) (read_buffer : Reader S → Bool × Reader S)
    (keeps : (r : Reader S) → kept (read_buffer r).1.source ≡ kept r.source) where
  abbrev of_source : {A : Type 0} → A × Reader S → B
  of_source out = kept out.1.source

  loaded_current-source : (r : Reader S) → of_source (loaded_current r) ≡ kept r.source
  unfolding loaded_current
  loaded_current-source r =
      either of_source (at_end r) refl (either of_source (text_end r) refl refl)

  after_read-source : (out : Bool × Reader S) → of_source (after_read out) ≡ of_source out
  unfolding after_read
  after_read-source (false, r) = refl
  after_read-source (true, r) =
      either of_source (0 == r.size) refl (loaded_current-source (record r { current = 0 }))

  refill-source : (r : Reader S) → of_source (refill read_buffer r) ≡ kept r.source
  unfolding refill
  refill-source r = either of_source (at_end r) refl (after_read-source (read_buffer r) ∙ keeps r)

  pub current-source : (r : Reader S) → of_source (current read_buffer r) ≡ kept r.source
  unfolding current
  current-source r = either of_source (at_end r) refl (
      either of_source (text_end r) refl
        (either of_source (r.current == r.size) (refill-source r) refl))

  pub next-source : (r : Reader S) → of_source (next read_buffer r) ≡ kept r.source
  unfolding next
  next-source r = either of_source (at_end r) refl (
      either of_source (r.current == r.size) (refill-source r)
        (current-source (record r { current = r.current + 1 })))

  pub read-source : (n : ℕ) (r : Reader S) → of_source (read read_buffer n r) ≡ kept r.source
  unfolding read
  read-source zero r = refl
  read-source (suc n) r =
      let r' : Reader S = (current read_buffer r).1 in
      either of_source (at_end r) refl
        (read-source n (next read_buffer r').1 ∙ next-source r' ∙ current-source r)
