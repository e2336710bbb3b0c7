-- ===== src/Construction/Flow.antt =====
-- internal/compiler/construction.go and construction_flow.go: the sets of initialized fields, the
-- exits of a constructor, and how exits are merged.
use ghi.Prelude.{String, Bool, true, false, ◌&&◌, not, List, [], ◌∷◌, ◌++◌, if◌then◌else◌, contains}
use ghi.Construction.Visit.{Visit, this_field, parent_method, this_itself}

-- `initializedFields`: the names that are set. `@parent` stands for the parent's constructor.
abbrev pub Initialized : Type 0
Initialized = List String

unfoldable pub intersect_fields : Initialized → Initialized → Initialized
intersect_fields [] b = []
intersect_fields (k ∷ a) b =
    let rest = intersect_fields a b in if contains b k then k ∷ rest else rest

-- How a statement is left: `falls` is `token.ILLEGAL`, `throws` is `constructorThrow`.
pub data Flow : Type 0 where
  falls throws returns breaks continues goes falls_through : Flow

abbrev pub flow_eq : Flow → Flow → Bool
flow_eq falls falls = true
flow_eq throws throws = true
flow_eq returns returns = true
flow_eq breaks breaks = true
flow_eq continues continues = true
flow_eq goes goes = true
flow_eq falls_through falls_through = true
flow_eq _ _ = false

pub record Exit : Type 0 where
  pub state : Initialized
  pub flow : Flow

-- The messages of `reject`. The source keeps the first one; here they are all kept in order, and
-- the error of a check is the first of the list.
pub data Reason : Type 0 where
  parent_not_run : Reason
  not_initialized : String → Reason
  virtual_method : Reason
  read_before : String → Reason
  parent_call : Reason
  this_escapes : Reason
  labelled_jump : Reason
  -- A nil dereference: `GhiTry` called on other than three function literals or nil.
  malformed_try : Reason

-- What a check of a piece of code returns.
pub record Checked : Type 0 where
  pub exits : List Exit
  pub errors : List Reason

-- The loop body of `mergeConstructorExits`.
unfoldable pub add_exit : List Exit → Exit → List Exit
unfolding intersect_fields
add_exit [] e = e ∷ []
add_exit (previous ∷ result) e =
    let rest = add_exit result e in
    if flow_eq previous.flow e.flow
    then record previous { state = intersect_fields previous.state e.state } ∷ result
    else previous ∷ rest

unfoldable pub merge_into : List Exit → List Exit → List Exit
unfolding add_exit
merge_into result [] = result
merge_into result (e ∷ exits) = merge_into (add_exit result e) exits

unfoldable pub merge_exits : List Exit → List Exit
unfolding merge_into
merge_exits exits = merge_into [] exits

-- The callback of `read` on one node: `fields` are the fields of the class and its ancestors.
unfoldable pub read_visit : (fields required : List String) → Initialized → Visit → List Reason
read_visit fields required state (this_field name) =
    (if contains fields name then [] else virtual_method ∷ [])
    ++ (if contains required name && not (contains state name) then read_before name ∷ [] else [])
read_visit fields required state (parent_method name) = parent_call ∷ []
read_visit fields required state this_itself = this_escapes ∷ []

unfoldable pub read_visits :
    (fields required : List String) → Initialized → List Visit → List Reason
unfolding read_visit
read_visits fields required state [] = []
read_visits fields required state (v ∷ vs) =
    read_visit fields required state v ++ read_visits fields required state vs
