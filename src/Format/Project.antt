-- ===== src/Format/Project.antt =====
-- internal/compiler/format.go: `FormatProject`. The file tree is given; whether the context is
-- cancelled is asked for by a count of the questions, and what becomes of a file operation by the
-- place of its file. `FormatSource` is a parameter. What the loop does to the disk is kept in order.
use ghi.Prelude.{
  ℕ, suc, String, Bool, true, false, ◌&&◌, ◌||◌, not, Option, none, some, List, [], ◌∷◌, ◌++◌,
  if◌then◌else◌, str_eq, starts_with,
}

-- The names from the file up to the root.
abbrev pub FilePath : Type 0
FilePath = List String

-- `broken` is an entry that the walk cannot read. A file has what `filepath.Ext` gives, its text
-- if it can be read, and whether its mode can be.
mutual
  pub data Node : Type 0 where
    dir : (name : String) → Nodes → Node
    file : (name ext : String) (symlink : Bool) (source : Option String) (info : Bool) → Node
    broken : Node

  pub data Nodes : Type 0 where
    no_nodes : Nodes
    more_nodes : Node → Nodes → Nodes

pub record Change : Type 0 where
  pub path : FilePath
  pub text : String

pub data FormatError : Type 0 where
  interrupted walk_failed symlinked unreadable malformed no_info not_written : FormatError

-- `polls` counts the questions to the context.
pub record Walk : Type 0 where
  pub polls : ℕ
  pub changes : List Change

pub data Walked : Type 0 where
  failed : FormatError → Walked
  walked : Walk → Walked

-- The walk ends at the first error.
abbrev pub and_then : Walked → (Walk → Walked) → Walked
and_then (failed e) next = failed e
and_then (walked w) next = next w

abbrev pub skips_dir : String → Bool
skips_dir name =
    starts_with name "." || str_eq name "bin" || str_eq name "vendor" || str_eq name "node_modules"

abbrev pub skips_file : (name ext : String) → Bool
skips_file name ext = starts_with name "." || not (str_eq ext ".ghi")

-- What became of the operations that replace one file.
pub record Writing : Type 0 where
  pub created : Bool
  pub written : Bool
  pub chmod : Bool
  pub closed : Bool
  pub renamed : Bool

pub data Effect : Type 0 where
  staged : FilePath → Effect
  replaced : Change → Effect
  dropped : FilePath → Effect

pub record Report : Type 0 where
  pub paths : List FilePath
  pub error : Option FormatError
  pub effects : List Effect

-- Whether the file was replaced, and what was done.
unfoldable pub write_file : Writing → Change → Bool
write_file w c = w.created && (w.written && (w.chmod && (w.closed && w.renamed)))

abbrev pub placing : (created done : Bool) → Change → List Effect
placing false done c = []
placing true true c = staged c.path ∷ replaced c ∷ []
placing true false c = staged c.path ∷ dropped c.path ∷ []

unfoldable pub write_effects : Writing → Change → List Effect
unfolding write_file
write_effects w c = placing w.created (write_file w c) c

module _ (cancelled : ℕ → Bool) (format : FilePath → String → Option String) where
  -- What is done with a source that was read.
  unfoldable pub format_file : FilePath → String → (info : Bool) → Walk → Walked
  format_file path source info w = elim (format path source) [
    | none ↦ failed malformed
    | some output ↦
        if str_eq source output
        then walked w
        else if info
        then walked
            (record w { changes = w.changes ++ (record { path = path; text = output } ∷ []) })
        else failed no_info
  ]

  unfoldable pub visit_file :
      (name ext : String) (symlink : Bool) (source : Option String) (info : Bool)
      → FilePath
      → Walk
      → Walked
  unfolding format_file
  visit_file name ext symlink source info path w =
      if skips_file name ext
      then walked w
      else if symlink
      then failed symlinked
      else elim source [ none ↦ failed unreadable | some content ↦ format_file path content info w ]

  -- The walk, with the callback: `root` is `path == root`.
  unfoldable mutual
    unfolding visit_file

    pub visit : Node → (root : Bool) → FilePath → Walk → Walked
    visit (dir name nodes) root path w =
        let w' : Walk = record w { polls = suc w.polls } in
        let inner = visit_all nodes (name ∷ path) w' in
        if cancelled w.polls
        then failed interrupted
        else if not root && skips_dir name
        then walked w'
        else inner
    visit (file name ext symlink source info) root path w =
        if cancelled w.polls
        then failed interrupted
        else visit_file name ext symlink source info (name ∷ path)
            (record w { polls = suc w.polls })
    visit broken root path w = if cancelled w.polls then failed interrupted else failed walk_failed

    pub visit_all : Nodes → FilePath → Walk → Walked
    visit_all no_nodes path w = walked w
    visit_all (more_nodes n ns) path w =
        and_then (visit n false path w) (λ w'. visit_all ns path w')

  -- The loop over the changes; `polls` goes on counting, `i` is the place of the change.
  unfoldable pub write_all :
      (check : Bool) (writing : ℕ → Writing) → (polls i : ℕ) → List Change → Report
  unfolding write_effects
  write_all check writing polls i [] = record { paths = []; error = none; effects = [] }
  write_all check writing polls i (c ∷ cs) =
      let rest = write_all check writing (suc polls) (suc i) cs in
      if cancelled polls
      then record { paths = []; error = some interrupted; effects = [] }
      else if check
      then record rest { paths = c.path ∷ rest.paths }
      else if write_file (writing i) c
      then record rest {
        paths = c.path ∷ rest.paths;
        effects = write_effects (writing i) c ++ rest.effects;
      }
      else record { paths = []; error = some not_written; effects = write_effects (writing i) c }

  -- A walk that failed changes nothing.
  unfoldable pub write_walked : (check : Bool) (writing : ℕ → Writing) → Walked → Report
  unfolding write_all
  write_walked check writing (failed e) = record { paths = []; error = some e; effects = [] }
  write_walked check writing (walked w) = write_all check writing w.polls 0 w.changes

  unfoldable pub format_project : (check : Bool) (writing : ℕ → Writing) → Node → Report
  unfolding visit write_walked
  format_project check writing root =
      write_walked check writing (visit root true [] (record { polls = 0; changes = [] }))
