-- ===== src/Cache/Store.antt =====
-- internal/compiler/build_cache.go: `valid`, `snapshot` and `store`. The workspace is a list of names
-- with the digests of their contents, as `cacheFiles` gives it. The file operations of `store` may
-- fail or be cut off at any place: their outcomes are given.
use ghi.Prelude.{
  String, Bool, true, false, ◌&&◌, not, Option, none, some, List, [], ◌∷◌, ◌++◌, ◌==◌,
  if◌then◌else◌, length, str_eq,
}

pub record Entry : Type 0 where
  pub name : String
  pub digest : String

-- `buildCacheState`
pub record CacheState : Type 0 where
  pub key : String
  pub files : List Entry

-- What state.json holds: nothing, what cannot be decoded, or a state.
pub data StateFile : Type 0 where
  absent unreadable : StateFile
  state : CacheState → StateFile

pub record Disk : Type 0 where
  pub workspace : List Entry
  pub state_file : StateFile

abbrev pub lookup : List Entry → String → Option String
lookup [] name = none
lookup (e ∷ es) name = if str_eq e.name name then some e.digest else lookup es name

abbrev pub has_digest : Option String → String → Bool
has_digest none digest = false
has_digest (some d) digest = str_eq d digest

abbrev all_match : List Entry → (expected : List Entry) → Bool
all_match [] expected = true
all_match (e ∷ es) expected = has_digest (lookup expected e.name) e.digest && all_match es expected

-- As many files, each with the digest that is expected.
unfoldable pub same_files : (files expected : List Entry) → Bool
same_files files expected = (length files == length expected) && all_match files expected

unfoldable pub read_state : StateFile → (workspace : List Entry) → Option CacheState
unfolding same_files
read_state absent workspace = none
read_state unreadable workspace = none
read_state (state s) workspace =
    if not (length s.files == 0) && same_files workspace s.files then some s else none

unfoldable pub snapshot : Disk → Option CacheState
unfolding read_state
snapshot d = read_state d.state_file d.workspace

abbrev pub has_key : Option CacheState → String → Bool
has_key none key = false
has_key (some s) key = str_eq s.key key

unfoldable pub valid : (key : String) → Disk → Bool
unfolding snapshot
valid key d = has_key (snapshot d) key

pub data Operation : Type 0 where
  remove_file : (name : String) → Operation
  write_file : Entry → Operation

-- What becomes of an operation: it is done, it fails, or it is cut off, which leaves some content.
pub data Outcome : Type 0 where
  done failed : Outcome
  cut_off : (digest : String) → Outcome

abbrev pub remove : String → List Entry → List Entry
remove name [] = []
remove name (e ∷ es) = if str_eq e.name name then es else e ∷ remove name es

abbrev pub put : Entry → List Entry → List Entry
put new [] = new ∷ []
put new (e ∷ es) = if str_eq e.name new.name then new ∷ es else e ∷ put new es

abbrev pub perform : Operation → Disk → Disk
perform (remove_file name) d = record d { workspace = remove name d.workspace }
perform (write_file e) d = record d { workspace = put e d.workspace }

abbrev pub interrupt : Operation → (digest : String) → Disk → Disk
interrupt (remove_file name) digest d = d
interrupt (write_file e) digest d = record d {
  workspace = put (record { name = e.name; digest = digest }) d.workspace;
}

pub data Progress : Type 0 where
  stopped : Disk → Progress
  went_on : Disk → List Outcome → Progress

-- The operations in order, up to the first that fails. Without an outcome the process has ended.
unfoldable pub perform_all : List Operation → List Outcome → Disk → Progress
perform_all [] outcomes d = went_on d outcomes
perform_all (op ∷ ops) [] d = stopped d
perform_all (op ∷ ops) (done ∷ outcomes) d = perform_all ops outcomes (perform op d)
perform_all (op ∷ ops) (failed ∷ outcomes) d = stopped d
perform_all (op ∷ ops) (cut_off digest ∷ outcomes) d = stopped (interrupt op digest d)

-- The files that the new generation has not.
abbrev pub removals : (old files : List Entry) → List Operation
removals [] files = []
removals (e ∷ old) files = elim (lookup files e.name) [
  | none ↦ remove_file e.name ∷ removals old files
  | some digest ↦ removals old files
]

-- The files that are new or changed.
abbrev pub updates : (files old : List Entry) → List Operation
updates [] old = []
updates (e ∷ files) old =
    if has_digest (lookup old e.name) e.digest
    then updates files old
    else write_file e ∷ updates files old

abbrev pub write_state : CacheState → List Outcome → Disk → Disk
write_state s [] d = d
write_state s (done ∷ outcomes) d = record d { state_file = state s }
write_state s (failed ∷ outcomes) d = d
write_state s (cut_off digest ∷ outcomes) d = record d { state_file = unreadable }

-- The end of `store`: the manifest is published if the workspace is what it says.
unfoldable pub publish : CacheState → Progress → Disk
unfolding same_files
publish s (stopped d) = d
publish s (went_on d outcomes) =
    if same_files s.files d.workspace then write_state s outcomes d else d

-- `store`, with the files of the staging directory.
unfoldable pub store : (key : String) (files : List Entry) → List Outcome → Disk → Disk
unfolding perform_all publish
store key files [] d = d
store key files (failed ∷ outcomes) d = d
store key files (cut_off digest ∷ outcomes) d = d
store key files (done ∷ outcomes) d =
    publish (record { key = key; files = files })
      (perform_all (removals d.workspace files ++ updates files d.workspace) outcomes
        (record d { state_file = absent }))
