-- ===== src/Cache/Examples.antt =====
-- A generation of two files over an older one, stored in full and cut off.
use ghi.Prelude.{String, ◌≡◌, refl, ◌⊎◌, true, false, List, [], ◌∷◌}
use ghi.Cache.Store.{Entry, Disk, unreadable, state, same_files, valid, done, cut_off, store}
use ghi.Cache.Safe.{store-valid}

abbrev entry : String → String → Entry
entry name digest = record { name = name; digest = digest }

abbrev files : List Entry
files = entry "main.go" "m2" ∷ entry "go.mod" "g" ∷ []

abbrev older : Disk
older = record {
  workspace = entry "main.go" "m1" ∷ entry "old.go" "o" ∷ entry "go.mod" "g" ∷ [];
  state_file = state (record {
    key = "k1";
    files = entry "main.go" "m1" ∷ entry "old.go" "o" ∷ entry "go.mod" "g" ∷ [];
  });
}

abbrev new_key : String
new_key = "k2"

stored :
    (valid "k1" older ≡ true)
    × (valid "k2" (store "k2" files (done ∷ done ∷ done ∷ done ∷ []) older) ≡ true)
    × (valid "k1" (store "k2" files (done ∷ done ∷ done ∷ done ∷ []) older) ≡ false)
    × (valid "k2" (store "k2" files (done ∷ done ∷ cut_off "m" ∷ []) older) ≡ false)
    × ((store "k2" files (done ∷ done ∷ done ∷ cut_off "" ∷ []) older).state_file ≡ unreadable)
unfolding valid store
stored = (refl, refl, refl, refl, refl)

store-valid_example :
    (store "k2" files (done ∷ done ∷ done ∷ done ∷ []) older ≡ older)
    ⊎ ((new_key ≡ new_key)
        × (same_files files (store "k2" files (done ∷ done ∷ done ∷ done ∷ []) older).workspace
            ≡ true))
store-valid_example =
    store-valid new_key new_key files (done ∷ done ∷ done ∷ done ∷ []) older stored.1
