-- ===== src/FileSystem/Tests.antt =====
-- Runs of the file system in memory.
use aether_client_cpp_new.Prelude.{◌≡◌, refl, false, none, List, [], ◌∷◌}
use aether_client_cpp_new.FileSystem.{enumerate, store, load, value_or, remove}
use aether_client_cpp_new.FileSystem.Maps.{Ascending, has}
use aether_client_cpp_new.FileSystem.Stored.{Event, on_store, on_remove, run, run_table, load-run}
use aether_client_cpp_new.FileSystem.Listing.{run_listed, enumerate-run}

abbrev history : List Event
history =
    on_store 1 9 0 (5 ∷ [])
    ∷ on_store 1 4 2 (6 ∷ [])
    ∷ on_store 2 4 0 (7 ∷ [])
    ∷ on_remove 2
    ∷ on_store 1 9 0 (8 ∷ 8 ∷ [])
    ∷ []

stored_last : load (run [] history) 1 9 0 [] ≡ 8 ∷ 8 ∷ []
unfolding load run store remove
stored_last = refl

in_order : enumerate (run [] history) 1 ≡ 4 ∷ 9 ∷ []
unfolding enumerate run store remove
in_order = refl

load-run_example :
    load (run [] history) 1 9 0 [] ≡ value_or [] (run_table (λ o c v. none) history 1 9 0)
load-run_example = load-run history 1 9 0 []

enumerate-run_example :
    Ascending (enumerate (run [] history) 1)
    × (has 4 (enumerate (run [] history) 1) ≡ run_listed (λ o c. false) history 1 4)
enumerate-run_example = enumerate-run history 1 4
