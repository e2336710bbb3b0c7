-- ===== src/Watch/Log.antt =====
-- What a log of the watcher's actions tells, by recursion on it.
use ghi.Prelude.{ℕ, String, ◌≡◌, ◌≢◌, Option, none, some, List, [], ◌∷◌}
use ghi.Watch.State.{BuildTask, Action, building, removed, stopped, removed_all, started, exited}

-- The newest build.
abbrev pub last_build : List Action → Option BuildTask
last_build [] = none
last_build (building task ∷ log) = some task
last_build (_ ∷ log) = last_build log

abbrev pub source_of : Option BuildTask → Option String
source_of none = none
source_of (some task) = some task.source

abbrev pub path_of : Option BuildTask → Option ℕ
path_of none = none
path_of (some task) = some task.path

-- The process that is alive afterwards.
abbrev pub alive : List Action → Option ℕ
alive [] = none
alive (started path ∷ log) = some path
alive (stopped path ∷ log) = none
alive (exited path ∷ log) = none
alive (_ ∷ log) = alive log

-- Each process was started from the newest build, while no other process was alive, and no
-- binary was removed while it ran, alone or with all others.
abbrev pub IsOrderly : List Action → Type 0
IsOrderly [] = Unit
IsOrderly (started path ∷ log) =
    (path_of (last_build log) ≡ some path) × (alive log ≡ none) × IsOrderly log
IsOrderly (removed path ∷ log) = (alive log ≢ some path) × IsOrderly log
IsOrderly (removed_all ∷ log) = (alive log ≡ none) × IsOrderly log
IsOrderly (_ ∷ log) = IsOrderly log
