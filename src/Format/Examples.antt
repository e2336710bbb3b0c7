-- ===== src/Format/Examples.antt =====
-- A project with a source to format, one that is formatted, a hidden file and a vendored one.
use ghi.Prelude.{
  ℕ, String, ◌≡◌, refl, Bool, true, false, Option, some, [], ◌∷◌, str_eq, if◌then◌else◌,
}
use ghi.Format.Project.{
  FilePath, Node, dir, file, no_nodes, more_nodes, Change, Writing, staged, replaced, dropped,
  not_written, visit, format_project,
}
use ghi.Format.Replaced.{sources, needed, Reports, format_project-Reports}

abbrev never : ℕ → Bool
never polls = false

abbrev tidy : FilePath → String → Option String
tidy path content = some (if str_eq content "a  b" then "a b" else content)

abbrev source_file : String → String → Node
source_file name content = file name ".ghi" false (some content) true

abbrev project : Node
project = dir "shop" (
    more_nodes (source_file "main.ghi" "a  b") (
      more_nodes (source_file ".cache.ghi" "a  b") (
        more_nodes (dir "vendor" (more_nodes (source_file "lib.ghi" "a  b") no_nodes))
          (more_nodes (source_file "other.ghi" "c") no_nodes))))

abbrev succeeds : ℕ → Writing
succeeds i = record { created = true; written = true; chmod = true; closed = true; renamed = true }

abbrev stays : ℕ → Writing
stays i = record (succeeds i) { renamed = false }

abbrev main_change : Change
main_change = record { path = "main.ghi" ∷ "shop" ∷ []; text = "a b" }

project_formatted :
    (format_project never tidy false succeeds project).effects
    ≡ staged main_change.path ∷ replaced main_change ∷ []
unfolding format_project visit
project_formatted = refl

project_refused :
    ((format_project never tidy false stays project).effects
      ≡ staged main_change.path ∷ dropped main_change.path ∷ [])
    × ((format_project never tidy false stays project).error ≡ some not_written)
unfolding format_project visit
project_refused = (refl, refl)

format_project-Reports_example :
    Reports never tidy false
      (needed never tidy (sources project true []))
      (format_project never tidy false succeeds project)
format_project-Reports_example = format_project-Reports never tidy false succeeds project
