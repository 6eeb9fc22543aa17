-- ===== src/Start/Volumes.antt =====
-- The volume with the assets.
use lavoro_l.Base.{
  ◌+◌, ◌≡◌, refl, Bool, Option, none, some, List, [], ◌∷◌, if◌then◌else◌, arith, length,
  Option-cases, inl, inr, ◌∙◌,
}
use lavoro_l.Start.{Found, add_volume, add_volumes, initialize}

module _ {H I : Type 0} (handle_protocol : H → Option I) (has_assets : I → Bool) (junk : I) where
  -- The last volume that can be opened and has the assets, or `old`.
  abbrev pub last_assets : List H → Option I → Option I
  last_assets [] old = old
  last_assets (h ∷ hs) old = elim (handle_protocol h) [
    | none ↦ last_assets hs old
    | some i ↦ last_assets hs (if has_assets i then some i else old)
  ]

  add_volumes-last :
      (hs : List H) (f : Found I)
      → ((add_volumes handle_protocol has_assets junk hs f).assets ≡ last_assets hs f.assets)
        × ((add_volumes handle_protocol has_assets junk hs f).count ≡ f.count + length hs)
  unfolding add_volumes add_volume
  add_volumes-last [] f = (refl, omega arith)
  add_volumes-last (h ∷ hs) f =
      let rest = add_volumes-last hs (add_volume handle_protocol has_assets junk h f) in
      elim (Option-cases (handle_protocol h)) [
        | inl error ↦ (
          rest.0 ∙ rw (add_volume, last_assets, error) refl,
          rest.1 ∙ rw (add_volume, error) (omega arith),
        )
        | inr (i, opened) ↦ (
          rest.0 ∙ rw (add_volume, last_assets, opened) refl,
          rest.1 ∙ rw (add_volume, opened) (omega arith),
        )
      ]

  -- After a look-up of the file systems without an error `FileInterfacesCount` has grown by their
  -- number, the assets are on the last volume that has them, and the current directory is the root.
  initialize_lem :
      (hs : List H) (f : Found I)
      → (let out : Found I = initialize handle_protocol has_assets junk (some hs) f in
          (out.assets ≡ last_assets hs f.assets)
          × (out.count ≡ f.count + length hs)
          × (out.path ≡ 92 ∷ []))
  unfolding initialize
  initialize_lem hs f =
      let (assets, count) = add_volumes-last hs (record f { interfaces = [] }) in
      (assets, count, refl)
