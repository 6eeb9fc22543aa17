-- ===== src/Disk/Shown.antt =====
-- What cat prints of a medium that does not fail, and what it leaves.
use lavoro_l.Base.{
  ℕ, zero, suc, ◌<◌, ◌≡◌, ◌≢◌, refl, Option, none, some, Bool, List, ◌++◌, ◌∙◌, ap, sym, arith,
  length, Bool-cases, inl, inr, if-else,
}
use lavoro_l.Reader.{Reader, at_end, current, step, char16}
use lavoro_l.Reader.Kept.{next-source, current-source}
use lavoro_l.Transfer.{Screenful, show_loop, finish, put_char}
use lavoro_l.Transfer.Show.{flatten, HasNoZero, show_loop-finish}
use lavoro_l.File.{Protocol, read_buffer}
use lavoro_l.File.Source.{file_source}
use lavoro_l.File.Seek.{IsSeekable, contents, read_buffer-contents}
use lavoro_l.Disk.Lawful.{IsLawful}
use lavoro_l.Disk.Written.{read_buffer-spot, reader_on-IsFresh}
use lavoro_l.Disk.Copied.{open_existing}
use lavoro_l.Disk.Commands.{
  FileSystem, finished, mode_read, attribute_valid, delete_file, reader_on, cat_file, show_from,
}

-- The printing loop keeps what `ReadBuffer` keeps.
module _ {S B : Type 0} (kept : S → B) (read_buffer : Reader S → Bool × Reader S)
    (keeps : (r : Reader S) → kept (read_buffer r).1.source ≡ kept r.source) where
  abbrev pick : {A : Type 0} → Option ℕ → A → A → A
  pick c x y = elim c [ none ↦ x | some b ↦ y ]

  of_branch :
      (c : Option ℕ) (k : B) (s s' : Screenful) (r r' : Reader S)
      (rest : Option (Screenful × Reader S))
      → kept r.source ≡ k
      → (rest ≡ some (s', r') → kept r'.source ≡ k)
      → pick c (some (s, r)) rest ≡ some (s', r')
      → kept r'.source ≡ k
  of_branch none k s s' r r' rest here there e = ground arith
  of_branch (some c) k s s' r r' rest here there e = there e

  show_loop-source :
      (fuel : ℕ) (s s' : Screenful) (r r' : Reader S)
      → show_loop read_buffer fuel s r ≡ some (s', r')
      → kept r'.source ≡ kept r.source
  unfolding show_loop
  show_loop-source zero s s' r r' e = absurd (cc)
  show_loop-source (suc fuel) s s' r r' e = elim (Bool-cases (at_end r)) [
    | inl over ↦ ground arith
    | inr live ↦
        let r0 : Reader S = step read_buffer r in
        let r1 : Reader S = (current read_buffer r0).1 in
        let r2 : Reader S = (current read_buffer r1).1 in
        let k1 : kept r1.source ≡ kept r.source =
          current-source kept read_buffer keeps r0 ∙ next-source kept read_buffer keeps r in
        let s2 : Screenful = put_char s (char16 (current read_buffer r1).0) in
        of_branch (current read_buffer r0).0 (kept r.source) s s' r1 r'
          (show_loop read_buffer fuel s2 r2) k1
          (λ e'.
            show_loop-source fuel s2 s' r2 r' e' ∙ current-source kept read_buffer keeps r1 ∙ k1)
          (sym (if-else (at_end r) _ _ live) ∙ e)
  ]

module _ {p : Protocol} {m : IsSeekable p} {fs : FileSystem p} (l : IsLawful m fs) where
  -- cat of a file without zero bytes, with more fuel than it has bytes: the run ends without a fault,
  -- the texts that are printed are, one after the other, the bytes of the file, which keeps them, and
  -- another place is as before.
  pub cat_file_lem :
      (reader_cells writer_cells : List ℕ) (fuel : ℕ) (path : List ℕ) (d : fs.Disk) (bytes : List ℕ)
      (q : l.Place)
      → length reader_cells ≡ 128
      → length path ≢ 0
      → l.lookup d (l.place path) ≡ some bytes
      → HasNoZero bytes
      → length bytes < fuel
      → q ≢ l.place path
      → (ts : List (List ℕ)) × (d' : fs.Disk) × (cat_file fs reader_cells writer_cells fuel path d
          ≡ some (finished (ts, d')))
        × (flatten ts ≡ bytes)
        × (l.lookup d' (l.place path) ≡ some bytes)
        × (l.lookup d' q ≡ l.lookup d q)
  unfolding cat_file delete_file
  cat_file_lem rc wc fuel path d bytes q erc named found z enough apart =
      let f = open_existing l path mode_read attribute_valid d named bytes found in
      let r : Reader p.Handle = reader_on fs rc wc f.handle in
      let run =
        show_loop-finish (file_source m.reliable) fuel {r = r}
          (reader_on-IsFresh fs rc wc f.handle erc) (rw f.whole z) (rw f.whole enough) in
      let spot : l.spot run.1.source ≡ l.place path =
        show_loop-source l.spot (read_buffer p) (read_buffer-spot m l) fuel _ run.0 r run.1 run.2
        ∙ f.spot in
      let same : contents m run.1.source ≡ bytes =
        show_loop-source (contents m) (read_buffer p) (read_buffer-contents m) fuel _ run.0 r run.1
          run.2
        ∙ ap (λ t. t ++ m.reliable.rest f.handle) f.start
        ∙ f.whole in
      (
        (finish run.0).printed,
        fs.close run.1.source f.disk,
        rw f.run (rw (run.2, show_from) refl),
        run.3 ∙ f.whole,
        ap (l.lookup (fs.close run.1.source f.disk)) (sym spot)
            ∙ l.close_there run.1.source f.disk
            ∙ ap some same,
        l.close_lookup run.1.source f.disk q (λ e. apart (e ∙ spot)) ∙ f.others q apart,
      )
