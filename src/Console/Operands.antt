-- ===== src/Console/Operands.antt =====
-- The paths and texts that a line's handler works on.
use lavoro_l.Base.{ℕ, suc, ◌+◌, ◌≡◌, ◌≢◌, refl, List, [], ◌∷◌, ◌++◌, arith, length, drop, ap, ◌∙◌}
use lavoro_l.Transfer.{c_string}
use lavoro_l.Console.{
  addline, append_line, cp, mv, cut_first, cut_all, second_text, resolve, handle, Action, copy,
  move,
}

-- Neither a terminator nor a space.
abbrev pub IsName : List ℕ → Type 0
IsName [] = Unit {0}
IsName (c ∷ cs) = (c ≢ 0) × (c ≢ 32) × IsName cs

-- No terminator.
abbrev pub IsText : List ℕ → Type 0
IsText [] = Unit {0}
IsText (c ∷ cs) = (c ≢ 0) × IsText cs

pub IsName-IsText : (cs : List ℕ) → IsName cs → IsText cs
IsName-IsText [] h = tt
IsName-IsText (c ∷ cs) (z, s, h) = (z, IsName-IsText cs h)

pub c_string-append : (cs r : List ℕ) → IsText cs → c_string (cs ++ 0 ∷ r) ≡ cs
c_string-append [] r h = refl
c_string-append (c ∷ cs) r h = ground (arith, c_string-append cs r)

drop-append : (cs r : List ℕ) → drop (length cs + 1) (cs ++ 0 ∷ r) ≡ r
drop-append [] r = refl
drop-append (c ∷ cs) r =
    let n : suc (length cs) + 1 ≡ suc (length cs + 1) = omega arith in rw n (drop-append cs r)

cut_first-append : (a r : List ℕ) → IsName a → cut_first (a ++ 32 ∷ r) ≡ a ++ 0 ∷ r
unfolding cut_first
cut_first-append [] r h = refl
cut_first-append (c ∷ a) r h = ground (arith, cut_first-append a r)

cut_all-append : (a r : List ℕ) → IsName a → cut_all (a ++ 32 ∷ r) ≡ a ++ 0 ∷ cut_all r
unfolding cut_all
cut_all-append [] r h = refl
cut_all-append (c ∷ a) r h = ground (arith, cut_all-append a r)

cut_all-end : (b r : List ℕ) → IsName b → cut_all (b ++ 0 ∷ r) ≡ b ++ 0 ∷ r
unfolding cut_all
cut_all-end [] r h = refl
cut_all-end (c ∷ b) r h = ground (arith, cut_all-end b r)

-- A line cut behind `a`, and what follows it.
second_text-cut :
    (x y z : ℕ) (a r : List ℕ)
    → IsText (x ∷ y ∷ z ∷ a)
    → second_text (x ∷ y ∷ z ∷ (a ++ 0 ∷ r)) ≡ c_string r
second_text-cut x y z a r h =
    rw (c_string-append (x ∷ y ∷ z ∷ a) r h) (ap c_string (drop-append (x ∷ y ∷ z ∷ a) r))

-- A line cut behind its first name gives that name and the text behind the cut.
two_texts :
    (make : List ℕ → List ℕ → Action) (dir : List ℕ) (x y z : ℕ) (a b r : List ℕ)
    → IsText (x ∷ y ∷ z ∷ a)
    → IsText b
    → make
        (resolve dir (c_string (a ++ 0 ∷ (b ++ 0 ∷ r))))
        (resolve dir (second_text (x ∷ y ∷ z ∷ (a ++ 0 ∷ (b ++ 0 ∷ r)))))
      ≡ make (resolve dir a) (resolve dir b)
two_texts make dir x y z a b r (nx, (ny, (nz, ta))) tb =
    rw
      (
        second_text-cut x y z a (b ++ 0 ∷ r) (nx, (ny, (nz, ta))),
        c_string-append a (b ++ 0 ∷ r) ta,
        c_string-append b r tb,
      )
      refl

pub nonzero : (n : ℕ) → suc n ≢ 0
nonzero n e = omega arith

-- For a line `cp a b` in which the first name has no space, cp copies `a` to `b`, spaces in `b`
-- included; both paths are taken in the current directory. `junk` is whatever lies in the buffer
-- behind the line's end.
pub handle_cp :
    (dir a b junk : List ℕ)
    → IsName a
    → IsText b
    → handle cp dir (99 ∷ 112 ∷ 32 ∷ (a ++ 32 ∷ (b ++ 0 ∷ junk)))
      ≡ copy (resolve dir a) (resolve dir b)
unfolding handle
handle_cp dir a b junk na tb = rw (cut_first-append a (b ++ 0 ∷ junk) na) (
    two_texts copy dir 99 112 32 a b junk
      (nonzero 98, (nonzero 111, (nonzero 31, IsName-IsText a na))) tb)

cut_first-end : (a r : List ℕ) → IsName a → cut_first (a ++ 0 ∷ r) ≡ a ++ 0 ∷ r
unfolding cut_first
cut_first-end [] r h = refl
cut_first-end (c ∷ a) r h = ground (arith, cut_first-end a r)

-- For a line `cp a` with no second name, cp copies `a` to the text that an earlier line has left in
-- the cells behind this line's end.
handle_cp_stale :
    (dir a junk : List ℕ)
    → IsName a
    → handle cp dir (99 ∷ 112 ∷ 32 ∷ (a ++ 0 ∷ junk))
      ≡ copy (resolve dir a) (resolve dir (c_string junk))
unfolding handle
handle_cp_stale dir a junk na =
    let texts : IsText (99 ∷ 112 ∷ 32 ∷ a) =
      (nonzero 98, (nonzero 111, (nonzero 31, IsName-IsText a na))) in
    rw
      (
        cut_first-end a junk na,
        second_text-cut 99 112 32 a junk texts,
        c_string-append a junk (IsName-IsText a na),
      )
      refl

-- For a line `mv a b` in which neither name has a space, mv moves `a` to `b`; both paths are taken in
-- the current directory. `junk` is whatever lies in the buffer behind the line's end.
pub handle_mv :
    (dir a b junk : List ℕ)
    → IsName a
    → IsName b
    → handle mv dir (109 ∷ 118 ∷ 32 ∷ (a ++ 32 ∷ (b ++ 0 ∷ junk)))
      ≡ move (resolve dir a) (resolve dir b)
unfolding handle
handle_mv dir a b junk na nb =
    rw (cut_all-append a (b ++ 0 ∷ junk) na, cut_all-end b junk nb)
      (two_texts move dir 109 118 32 a b junk
        (nonzero 108, (nonzero 117, (nonzero 31, IsName-IsText a na))) (IsName-IsText b nb))

-- For a line `addline a text` in which the name has no space, addline puts the text, spaces included,
-- behind the file `a` of the current directory.
pub handle_addline :
    (dir a text junk : List ℕ)
    → IsName a
    → IsText text
    → handle addline dir
        (97 ∷ 100 ∷ 100 ∷ 108 ∷ 105 ∷ 110 ∷ 101 ∷ 32 ∷ (a ++ 32 ∷ (text ++ 0 ∷ junk)))
      ≡ append_line (resolve dir a) text
unfolding handle
handle_addline dir a text junk na ht = rw (cut_first-append a (text ++ 0 ∷ junk) na) (
    rw (c_string-append a (text ++ 0 ∷ junk) (IsName-IsText a na)) (
      ap (λ t. append_line (resolve dir a) (c_string t))
        (drop-append (97 ∷ 100 ∷ 100 ∷ 108 ∷ 105 ∷ 110 ∷ 101 ∷ 32 ∷ a) (text ++ 0 ∷ junk))
      ∙ ap (append_line (resolve dir a)) (c_string-append text junk ht)))
