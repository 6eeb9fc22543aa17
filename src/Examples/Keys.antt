-- ===== src/Examples/Keys.antt =====
-- Keys on a directory of two names, and lines typed at the console.
use lavoro_l.Base.{
  ℕ, zero, suc, ◌≤◌, ◌≡◌, refl, true, false, some, List, [], ◌∷◌, ◌++◌, arith, length, take,
  replicate, Option-cases, inl, inr,
}
use lavoro_l.Base.Int.{pos}
use lavoro_l.Explorer.{
  Entry, Platform, Explorer, fault, right, left, down, enter, f2, start, listing, volume_entries,
  run,
}
use lavoro_l.Explorer.Listing.{HasShortListings}
use lavoro_l.Explorer.Index.{IsSafe, run-start_IsSafe}
use lavoro_l.Explorer.Empty.{run-empty_fault}
use lavoro_l.Explorer.Icons.{draw_entries}
use lavoro_l.Explorer.Icons.Grid.{AreInGrid, draw_entries_lem}
use lavoro_l.Console.Ls.{Slot, shown, error, list_all}
use lavoro_l.Console.Ls.Entries.{over, next_entry, next_error, list_all_lem}
use lavoro_l.Console.{Strings, cat, word, dispatch}
use lavoro_l.Console.Dispatch.{same, IsComparing, dispatch_lem}

abbrev two_files : List Entry
two_files =
    record { name = 65 ∷ []; directory = true } ∷ record { name = 66 ∷ []; directory = false } ∷ []

abbrev platform : Platform
platform = record {
  volumes = 1;
  list_directory = λ v path. two_files;
  decimal = λ n. 48 ∷ [];
  atoi = λ text. 0;
}

some_entry : (e : Explorer) → 1 ≤ length (listing platform e)
unfolding listing volume_entries
some_entry e = elim (Option-cases e.volume) [
  | inl n ↦ rw n (omega arith)
  | inr (v, s) ↦ rw s (omega arith)
]

few_entries : (e : Explorer) → length (listing platform e) ≤ 64
unfolding listing volume_entries
few_entries e = elim (Option-cases e.volume) [
  | inl n ↦ rw n (omega arith)
  | inr (v, s) ↦ rw s (omega arith)
]

platform-HasShortListings : HasShortListings platform
platform-HasShortListings = record { some_entry = some_entry; at_most = few_entries }

run-start_IsSafe_example :
    IsSafe (run platform 3 (f2 ∷ enter ∷ down ∷ enter ∷ left ∷ []) (start [] (92 ∷ [])))
run-start_IsSafe_example =
    run-start_IsSafe platform-HasShortListings 3 (f2 ∷ enter ∷ down ∷ enter ∷ left ∷ []) []
      (92 ∷ [])

abbrev nothing_here : Explorer
nothing_here = record {
  page = 1;
  drawn = true;
  volume = some 0;
  path = 92 ∷ [];
  active = pos 0;
  count = 0;
  entries = replicate 64 (record { name = []; directory = false });
}

run-empty_fault_example : run platform 3 (right ∷ enter ∷ []) nothing_here ≡ fault
run-empty_fault_example = run-empty_fault platform 3 nothing_here refl refl refl refl

abbrev pub comparing : Strings
comparing = record { equal = same; equal_upto = λ n a b. same (take n a) (take n b) }

pub comparing-IsComparing : IsComparing comparing
comparing-IsComparing = record { whole = λ a b. refl; upto = λ n a b. refl }

dispatch_lem_example : dispatch comparing (word cat ++ 32 ∷ 65 ∷ []) ≡ cat
dispatch_lem_example = dispatch_lem comparing comparing-IsComparing cat (32 ∷ 65 ∷ [])

-- Two files in an explorer in which two pictures stand side by side; the second is active.
draw_entries_lem_example :
    AreInGrid 7 3 5 true (pos 1) 2 0 two_files (draw_entries 7 3 5 true (pos 1) two_files)
draw_entries_lem_example = draw_entries_lem 7 3 5 true (pos 1) two_files (omega arith) (omega arith)

abbrev a_file : Entry
a_file = record { name = 65 ∷ []; directory = false }

-- A file, then an error, then the end.
abbrev reading : ℕ → Slot × ℕ
reading zero = (record { failed = false; size = 90; entry = a_file }, 1)
reading (suc zero) = (record { failed = true; size = 255; entry = a_file }, 2)
reading (suc (suc n)) = (record { failed = false; size = 0; entry = a_file }, 2)

list_all_lem_example : list_all reading 4 0 ≡ some (shown a_file ∷ error ∷ [])
list_all_lem_example =
    list_all_lem reading 4
      (next_entry refl (λ e. omega arith) (next_error refl (λ e. omega arith) (over refl refl)))
      (omega arith)
