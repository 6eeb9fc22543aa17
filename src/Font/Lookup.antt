-- ===== src/Font/Lookup.antt =====
-- `GetCharBitmap` finds what `LoadBitmap` has put into the trie.
use lavoro_l.Base.{
  ℕ, ◌≡◌, refl, ◌&&◌, some, ◌==◌, arith, if◌then◌else◌, Bool-cases, Option-cases, inl, inr, ◌<◌,
}
use lavoro_l.Screen.{Screen}
use lavoro_l.Font.{Font, low, high, insert, get_char_bitmap}

-- A CHAR16 is its two bytes.
char_bytes :
    (c d : ℕ) → c < 65536 → d < 65536 → ((d == c) ≡ ((low d == low c) && (high d == high c)))
char_bytes c d l k = ground arith

-- After a character's bitmap is put into the trie it is the one found for that character; for every
-- other CHAR16 what was found before is found still.
pub get_char_bitmap-insert :
    (c d : ℕ) (b : Screen) (f : Font)
    → c < 65536
    → d < 65536
    → get_char_bitmap d (insert c b f) ≡ (if d == c then some b else get_char_bitmap d f)
unfolding get_char_bitmap insert
get_char_bitmap-insert c d b f l k = rw (char_bytes c d l k) (elim (Bool-cases (low d == low c)) [
  | inr other ↦ rw (other, insert, get_char_bitmap) refl
  | inl same ↦ elim (Bool-cases (high d == high c)) [
    | inl here ↦ rw (same, here, insert, get_char_bitmap) refl
    | inr spared ↦
        let e : low d ≡ low c = ground arith in
        rw (same, spared, e, insert, get_char_bitmap)
          (elim (Option-cases (f.trie (low c))) [
            | inl absent ↦ rw absent refl
            | inr (t, found) ↦ rw found refl
          ])
  ]
])
