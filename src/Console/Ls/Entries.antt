-- ===== src/Console/Ls/Entries.antt =====
-- The entries that `ls` prints, and the error that it does not leave.
use lavoro_l.Base.{
  ℕ, zero, suc, ◌+◌, ◌<◌, ◌≡◌, ◌≢◌, refl, true, false, Option, none, some, List, [], ◌∷◌, ◌==◌,
  arith, length, map, if-then, if-else, ap, ◌∙◌,
}
use lavoro_l.Explorer.{Entry}
use lavoro_l.Console.Ls.{Slot, Printed, shown, error, print_slot, print_first, ls_loop, list_all}

module _ {D : Type 0} (read : D → Slot × D) where
  -- The reads give these entries, with some errors among them, each of which leaves `szBufferSize`
  -- above 0, and then an empty slot, or an error that sets it to 0 and so ends the loop.
  pub data Delivers : D → List (Option Entry) → Type 0 where
    over : {d : D} → (read d).0.failed ≡ false → (read d).0.size ≡ 0 → Delivers d []
    next_entry :
        {d : D} {es : List (Option Entry)}
        → (read d).0.failed ≡ false
        → (read d).0.size ≢ 0
        → Delivers (read d).1 es
        → Delivers d (some (read d).0.entry ∷ es)
    next_error :
        {d : D} {es : List (Option Entry)}
        → (read d).0.failed ≡ true
        → (read d).0.size ≢ 0
        → Delivers (read d).1 es
        → Delivers d (none ∷ es)
    last_error : {d : D} → (read d).0.failed ≡ true → (read d).0.size ≡ 0 → Delivers d (none ∷ [])

  abbrev pub printed_of : Option Entry → Printed
  printed_of none = error
  printed_of (some e) = shown e

  print_slot-entry :
      (s : Slot) (out : List Printed)
      → s.failed ≡ false
      → s.size ≢ 0
      → print_slot read s out ≡ shown s.entry ∷ out
  print_slot-entry s out f z = if-else s.failed _ _ f ∙ if-else (s.size == 0) _ _ (ground arith)

  print_slot-error :
      (s : Slot) (out : List Printed) → s.failed ≡ true → print_slot read s out ≡ error ∷ out
  print_slot-error s out f = if-then s.failed _ _ f

  ls_loop-Delivers :
      (d : D) (es : List (Option Entry))
      → Delivers d es
      → (fuel size : ℕ) → size ≢ 0
      → length es + 1 < fuel
      → ls_loop read fuel size d ≡ some (map printed_of es)
  unfolding ls_loop
  ls_loop-Delivers d es h zero size n l = absurd (omega arith)
  ls_loop-Delivers d _ (over f z) (suc zero) size n l = absurd (omega arith)
  ls_loop-Delivers d _ (over f z) (suc (suc fuel)) size n l =
      if-else (size == 0) _ _ (ground arith) ∙ rw (z, f) refl
  ls_loop-Delivers d _ (last_error f z) (suc (suc fuel)) size n l =
      if-else (size == 0) _ _ (ground arith) ∙ rw (z, f) refl
  ls_loop-Delivers d _ (last_error f z) (suc zero) size n l = absurd (omega arith)
  ls_loop-Delivers d _ (next_entry {es = es} f z h) (suc fuel) size n l =
      let s : Slot = (read d).0 in
      if-else (size == 0) _ _ (ground arith)
      ∙ ap (print_first read s) (ls_loop-Delivers (read d).1 es h fuel s.size z (omega arith))
      ∙ ap some (print_slot-entry s _ f z)
  ls_loop-Delivers d _ (next_error {es = es} f z h) (suc fuel) size n l =
      let s : Slot = (read d).0 in
      if-else (size == 0) _ _ (ground arith)
      ∙ ap (print_first read s) (ls_loop-Delivers (read d).1 es h fuel s.size z (omega arith))
      ∙ ap some (print_slot-error s _ f)

  -- `ls` on a directory that comes to its end: every entry is printed once and in order, and an error
  -- of the firmware on the way that leaves `szBufferSize` above 0 is printed where it occurs and does
  -- not end the list; an error that sets it to 0 is printed last. The fuel is any number above that of the reads.
  pub list_all_lem :
      {d : D} {es : List (Option Entry)} (fuel : ℕ)
      → Delivers d es
      → length es + 1 < fuel
      → list_all read fuel d ≡ some (map printed_of es)
  unfolding list_all
  list_all_lem {d} {es} fuel h l = ls_loop-Delivers d es h fuel 255 (λ e. omega arith) l

  -- An error that the next read gives again, and that leaves `szBufferSize` above 0, is printed for
  -- ever: no fuel is enough.
  ls_loop-stuck :
      (d : D)
      → (read d).0.size ≢ 0
      → (read d).1 ≡ d
      → (fuel size : ℕ) → size ≢ 0
      → ls_loop read fuel size d ≡ none
  unfolding ls_loop
  ls_loop-stuck d z same zero size n = refl
  ls_loop-stuck d z same (suc fuel) size n =
      if-else (size == 0) _ _ (ground arith)
      ∙ ap (print_first read (read d).0) (
          ap (ls_loop read fuel (read d).0.size) same
          ∙ ls_loop-stuck d z same fuel (read d).0.size z)
