-- ===== src/Explorer/Index.antt =====
-- `ExplorerActiveIndex` and the other numbers of the main loop stay in range.
use lavoro_l.Base.{
  if-else, ltb, not, ◌&&◌, ◌⊎◌, ℕ, ◌+◌, ◌-◌, ◌≤◌, ◌<◌, ◌≡◌, ◌≢◌, refl, Bool, true, false, Option,
  none, some, List, [], ◌∷◌, ◌==◌, if◌then◌else◌, leb, arith, length-replicate, Bool-cases, inl,
  inr, ◌∙◌,
}
use lavoro_l.Base.Int.{ℤ, pos, negsuc, ltb_ℤ, leb_ℤ, ◌+ℤ◌, ◌-ℤ◌}
use lavoro_l.Explorer.{
  Entry, Platform, Explorer, Key, Outcome, running, returned, fault, overrun, fits, draw_entry,
  join_path, esc, f1, f2, f3, f10, f12, enter, up, down, left, right, other, start, max_entries,
  entry_at, draw_page, draw, shows_entry, and_then, move_back, move_on, open_at, open_entry, press,
  run,
}
use lavoro_l.Explorer.Listing.{
  entry_at-IsCell, draw_page-IsInRange, drawn-draw_page, IsCell, IsInRange, HasShortListings,
}

IsCell-back :
    (n : ℕ) (i : ℤ) → IsCell i → IsCell (if ltb_ℤ (i -ℤ pos n) (pos 0) then pos 0 else (i -ℤ pos n))
IsCell-back n (negsuc i) c = absurd c
IsCell-back n (pos i) c = elim (Bool-cases (leb n i)) [
  | inl inside ↦
      let e : pos i -ℤ pos n ≡ pos (i - n) = ground arith in
      let same : ltb_ℤ (pos (i - n)) (pos 0) ≡ false = ground arith in rw (e, same) (omega arith)
  | inr below ↦
      let e : pos i -ℤ pos n ≡ negsuc (n - i - 1) = ground arith in
      let less : ltb_ℤ (negsuc (n - i - 1)) (pos 0) ≡ true = ground arith in
      rw (e, less) (omega arith)
]

IsCell-on :
    (n count : ℕ) (i : ℤ)
    → IsCell i
    → 1 ≤ count
    → count ≤ max_entries
    → IsCell (if leb_ℤ (pos count) (i +ℤ pos n) then pos count -ℤ pos 1 else (i +ℤ pos n))
IsCell-on n count (negsuc i) c least few = absurd c
IsCell-on n count (pos i) c least few =
    let sum : pos i +ℤ pos n ≡ pos (i + n) = ground arith in
    let last : pos count -ℤ pos 1 ≡ pos (count - 1) = ground arith in
    elim (Bool-cases (leb_ℤ (pos count) (pos (i + n)))) [
      | inl beyond ↦ rw (sum, beyond, last) (omega arith)
      | inr inside ↦ rw (sum, inside) (let h : i + n < count = ground arith in omega arith)
    ]

-- After a key: the loop goes on in range, or `ScreenMode` has returned.
abbrev pub IsSafe : Outcome → Type 0
IsSafe (running e) = IsInRange e
IsSafe (returned b) = Unit {0}
IsSafe fault = ⊥
IsSafe overrun = Unit {0}

if-IsInRange :
    (b : Bool) (x y : Explorer)
    → (b ≡ true → IsInRange x)
    → (b ≡ false → IsInRange y)
    → IsInRange (if b then x else y)
if-IsInRange true x y f g = f refl
if-IsInRange false x y f g = g refl

-- A page that is to be drawn again, with another index.
IsInRange-moved :
    (e : Explorer) (i : ℤ)
    → IsInRange e
    → IsCell i
    → IsInRange (record e { active = i; drawn = false })
IsInRange-moved e i v c = record {
  page_in = v.page_in;
  active_in = c;
  count_in = v.count_in;
  cells = v.cells;
  listed = λ d q. cc;
}

move_back-IsInRange : (n : ℕ) {e : Explorer} → IsInRange e → IsInRange (move_back n e)
unfolding move_back
move_back-IsInRange n {e} v =
    if-IsInRange (e.page == 1) _ e (λ h. IsInRange-moved e _ v (IsCell-back n e.active v.active_in))
      (λ h. v)

move_on-IsInRange : (n : ℕ) {e : Explorer} → IsInRange e → e.drawn ≡ true → IsInRange (move_on n e)
unfolding move_on
move_on-IsInRange n {e} v d =
    if-IsInRange (e.page == 1) _ e
      (λ h.
        IsInRange-moved e _ v
          (IsCell-on n e.count e.active v.active_in (v.listed d (ground arith)) v.count_in))
      (λ h. v)

turned-IsInRange :
    (e : Explorer) (n : ℕ) (d : Bool) (w : Option ℕ) (l : List ℕ)
    → IsInRange e
    → n ≤ 3
    → (d ≡ true → (e.drawn ≡ true) × (e.page ≡ n))
    → IsInRange (record e { page = n; drawn = d; volume = w; path = l })
turned-IsInRange e n d w l v few same = record {
  page_in = few;
  active_in = v.active_in;
  count_in = v.count_in;
  cells = v.cells;
  listed = λ h q. v.listed (same h).0 ((same h).1 ∙ q);
}

if-IsSafe :
    (b : Bool) (x y : Outcome)
    → (b ≡ true → IsSafe x)
    → (b ≡ false → IsSafe y)
    → IsSafe (if b then x else y)
if-IsSafe true x y f g = f refl
if-IsSafe false x y f g = g refl

open_at-IsSafe :
    (p : Platform) (o : Option ℕ) (f : Entry) {e : Explorer}
    → IsInRange e
    → IsSafe (open_at p o f e)
unfolding open_at
open_at-IsSafe p none f {e} v =
    if-IsSafe (ltb (p.atoi f.name) p.volumes) _ _
      (λ h. turned-IsInRange e e.page false _ _ v v.page_in (λ k. ground arith)) (λ h. tt)
open_at-IsSafe p (some w) f {e} v =
    if-IsSafe f.directory _ _
      (λ h.
        if-IsSafe (fits (join_path e.path f.name)) _ overrun
          (λ in_path. turned-IsInRange e e.page false e.volume _ v v.page_in (λ k. ground arith))
          (λ out_of_path. tt))
      (λ h. turned-IsInRange e 2 false e.volume e.path v (omega arith) (λ k. ground arith))

open_entry-IsSafe :
    (p : Platform) (o : Option Entry) {e : Explorer}
    → o ≢ none
    → IsInRange e
    → IsSafe (open_entry p o e)
unfolding open_entry
open_entry-IsSafe p none ne v = absurd (ne refl)
open_entry-IsSafe p (some f) {e} ne v = open_at-IsSafe p e.volume f v

turn-IsInRange :
    (e : Explorer) (n : ℕ)
    → IsInRange e
    → n ≤ 3
    → IsInRange (record e { page = n; drawn = if e.page == n then e.drawn else false })
turn-IsInRange e n v few = turned-IsInRange e n _ e.volume e.path v few (λ h. ground arith)

press-IsSafe :
    (p : Platform) (columns : ℕ) (k : Key) {e : Explorer}
    → IsInRange e
    → e.drawn ≡ true
    → IsSafe (press p columns k e)
unfolding press
press-IsSafe p columns esc v d = tt
press-IsSafe p columns f12 v d = tt
press-IsSafe p columns f1 {e} v d = turn-IsInRange e 0 v (omega arith)
press-IsSafe p columns f2 {e} v d =
    turned-IsInRange e 1 false _ e.path v (omega arith) (λ h. ground arith)
press-IsSafe p columns f3 {e} v d = turn-IsInRange e 2 v (omega arith)
press-IsSafe p columns f10 {e} v d = turn-IsInRange e 3 v (omega arith)
press-IsSafe p columns enter {e} v d =
    if-IsSafe (e.page == 1) _ _
      (λ h.
        open_entry-IsSafe p (entry_at e.active e.entries)
          (entry_at-IsCell e.active e.entries v.active_in v.cells) v)
      (λ h. v)
press-IsSafe p columns up v d = move_back-IsInRange columns v
press-IsSafe p columns down v d = move_on-IsInRange columns v d
press-IsSafe p columns left v d = move_back-IsInRange 1 v
press-IsSafe p columns right v d = move_on-IsInRange 1 v d
press-IsSafe p columns other v d = v

start-IsInRange : (junk path : List ℕ) → IsInRange (start junk path)
start-IsInRange junk path = record {
  page_in = omega arith;
  active_in = omega arith;
  count_in = omega arith;
  cells = length-replicate {A = Entry} max_entries (record { name = junk; directory = false });
  listed = λ d q. cc;
}

and_then-IsSafe :
    (o : Outcome) (f : Explorer → Outcome)
    → IsSafe o
    → ((e : Explorer) → IsInRange e → IsSafe (f e))
    → IsSafe (and_then o f)
and_then-IsSafe (running e) f s h = h e s
and_then-IsSafe (returned b) f s h = tt
and_then-IsSafe fault f s h = s
and_then-IsSafe overrun f s h = tt

-- A page that shows no file of the listing is drawn.
pub draw-hidden :
    (p : Platform) (e : Explorer) → shows_entry p e ≡ false → draw p e ≡ running (draw_page p e)
unfolding draw
draw-hidden p e hidden = if-else (shows_entry p e) _ _ hidden

draw_entry-IsSafe :
    {p : Platform} (short : HasShortListings p) (o : Option Entry) {e : Explorer}
    → o ≢ none
    → IsInRange e
    → (draw_entry p o e ≡ running (draw_page p e)) ⊎ (draw_entry p o e ≡ overrun)
unfolding draw_entry
draw_entry-IsSafe short none ne v = absurd (ne refl)
draw_entry-IsSafe short (some f) {e} ne v =
    elim (Bool-cases (not f.directory && not (fits (join_path e.path f.name)))) [
      | inl long ↦ inr (rw long refl)
      | inr short_enough ↦ inl (rw short_enough refl)
    ]

draw-IsSafe :
    {p : Platform} (short : HasShortListings p) {e : Explorer}
    → IsInRange e
    → (draw p e ≡ running (draw_page p e)) ⊎ (draw p e ≡ overrun)
unfolding draw
draw-IsSafe {p} short {e} v = elim (Bool-cases (shows_entry p e)) [
  | inl shown ↦ rw shown (
      draw_entry-IsSafe short (entry_at e.active e.entries)
        (entry_at-IsCell e.active e.entries v.active_in v.cells) v)
  | inr hidden ↦ inl (rw hidden refl)
]

run-IsSafe :
    {p : Platform} (short : HasShortListings p) (columns : ℕ) (ks : List Key) {e : Explorer}
    → IsInRange e
    → IsSafe (run p columns ks e)
unfolding run
run-IsSafe short columns [] v = v
run-IsSafe {p} short columns (k ∷ ks) {e} v = elim (draw-IsSafe short v) [
  | inl drawn ↦
      rw (drawn, run)
        (and_then-IsSafe (press p columns k (draw_page p e)) (run p columns ks)
          (press-IsSafe p columns k (draw_page-IsInRange short v) (drawn-draw_page short e))
          (λ e' w. run-IsSafe short columns ks w))
  | inr long ↦ rw (long, run) tt
]

-- Whatever keys are pressed, in a screen of any number of columns: where each listing has from 1 to
-- 64 entries, the loop never uses a cell outside `ExplorerNames` and `ExplorerTypes`, and while it
-- runs the page is one of the four and the index is that of a cell. It may end by leaving another
-- array: with a name that is not the number of a volume, or with a path over 255 characters.
pub run-start_IsSafe :
    {p : Platform} (short : HasShortListings p) (columns : ℕ) (ks : List Key) (junk path : List ℕ)
    → IsSafe (run p columns ks (start junk path))
run-start_IsSafe short columns ks junk path =
    run-IsSafe short columns ks (start-IsInRange junk path)
