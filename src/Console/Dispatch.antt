-- ===== src/Console/Dispatch.antt =====
-- Which command a line is.
use lavoro_l.Base.{ℕ, ◌≡◌, Bool, true, false, ◌&&◌, List, [], ◌∷◌, ◌++◌, ◌==◌, if◌then◌else◌, take}
use lavoro_l.Console.{
  Strings, Command, box, cd, cat, connect, accept, filldemo, printmodes, rm, cp, mv, addline, mkdir,
  batch, word, dispatch,
}

-- The same text.
abbrev pub same : List ℕ → List ℕ → Bool
same [] [] = true
same [] (b ∷ bs) = false
same (a ∷ l) [] = false
same (a ∷ l) (b ∷ bs) = (a == b) && same l bs

-- What the two comparisons are documented to do: they tell whether the texts, or their first `n`
-- characters, are the same.
pub record IsComparing (lib : Strings) : Type 0 where
  pub whole : (a b : List ℕ) → lib.equal a b ≡ same a b
  pub upto : (n : ℕ) (a b : List ℕ) → lib.equal_upto n a b ≡ same (take n a) (take n b)

-- The commands that are told by their first letters, and those told by the whole line.
abbrev pub takes_arguments : Command → Bool
takes_arguments cd = true
takes_arguments cat = true
takes_arguments connect = true
takes_arguments accept = true
takes_arguments filldemo = true
takes_arguments printmodes = true
takes_arguments rm = true
takes_arguments cp = true
takes_arguments mv = true
takes_arguments addline = true
takes_arguments mkdir = true
takes_arguments batch = true
takes_arguments c = false

-- No command hides another: a line that begins with the word of a command with arguments is that
-- command, whatever follows the word, and a line that is the word of any other command is that one.
pub dispatch_lem :
    (lib : Strings)
    → IsComparing lib
    → (c : Command) (rest : List ℕ)
    → dispatch lib (if takes_arguments c then word c ++ rest else word c) ≡ c
unfolding dispatch
dispatch_lem lib law box rest = simp (law.whole, law.upto)
dispatch_lem lib law c rest = simp (law.whole, law.upto)
