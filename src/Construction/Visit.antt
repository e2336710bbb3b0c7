-- ===== src/Construction/Visit.antt =====
-- internal/compiler/construction.go: what `ast.Inspect` meets under the callback of
-- `constructorCheck.read`. The callback stops at `this.f` and at `parent.m`, whatever the state,
-- so the nodes on which it acts are a list.
use ghi.Prelude.{String, Option, none, some, List, [], ◌∷◌, ◌++◌, str_eq, if◌then◌else◌}
use ghi.Syntax.{
  Expr, absent, ident, basic_lit, ellipsis, func_lit, composite_lit, paren, selector, index_expr,
  index_list, slice_expr, type_assert, call, star, unary, binary, key_value, array_type,
  struct_type, func_type, interface_type, map_type, chan_type, Exprs, no_exprs, more_exprs, Fields,
  no_fields, more_fields, Stmt, absent_stmt, assign_stmt, expr_stmt, return_stmt, branch_stmt,
  block_stmt, if_stmt, for_stmt, range_stmt, switch_stmt, decl_stmt, labeled_stmt, inc_dec_stmt,
  send_stmt, go_stmt, defer_stmt, type_switch_stmt, select_stmt, Stmts, no_stmts, more_stmts,
  Clauses, no_clauses, case_clause, default_clause, Comms, no_comms, comm_clause, Specs, no_specs,
  value_spec, type_spec, is_ident,
}

pub data Visit : Type 0 where
  this_field : String → Visit
  parent_method : String → Visit
  this_itself : Visit

-- `thisField`
abbrev pub this_field_of : Expr → Option String
this_field_of (selector x name) = if is_ident x "this" then some name else none
this_field_of _ = none

abbrev pub visit_name : String → List Visit
visit_name name = if str_eq name "this" then this_itself ∷ [] else []

abbrev pub visit_names : List String → List Visit
visit_names [] = []
visit_names (name ∷ names) = visit_name name ++ visit_names names

abbrev pub visit_label : Option String → List Visit
visit_label none = []
visit_label (some label) = visit_name label

abbrev pub visit_selector : Expr → String → List Visit → List Visit
visit_selector x name inner =
    if is_ident x "this"
    then this_field name ∷ []
    else if is_ident x "parent"
    then parent_method name ∷ []
    else inner ++ visit_name name

unfoldable mutual
  pub visit : Expr → List Visit
  visit absent = []
  visit (ident name) = visit_name name
  visit (basic_lit value) = []
  visit (ellipsis x) = visit x
  visit (func_lit params results body) =
      visit_fields params ++ visit_fields results ++ visit_stmts body
  visit (composite_lit type elts) = visit type ++ visit_exprs elts
  visit (paren x) = visit x
  visit (selector x name) = let inner = visit x in visit_selector x name inner
  visit (index_expr x i) = visit x ++ visit i
  visit (index_list x is) = visit x ++ visit_exprs is
  visit (slice_expr x low high max) = visit x ++ visit low ++ visit high ++ visit max
  visit (type_assert x type) = visit x ++ visit type
  visit (call fun args) = visit fun ++ visit_exprs args
  visit (star x) = visit x
  visit (unary op x) = visit x
  visit (binary op x y) = visit x ++ visit y
  visit (key_value k v) = visit k ++ visit v
  visit (array_type len elt) = visit len ++ visit elt
  visit (struct_type fields) = visit_fields fields
  visit (func_type params results) = visit_fields params ++ visit_fields results
  visit (interface_type methods) = visit_fields methods
  visit (map_type k v) = visit k ++ visit v
  visit (chan_type v) = visit v

  pub visit_exprs : Exprs → List Visit
  visit_exprs no_exprs = []
  visit_exprs (more_exprs x xs) = visit x ++ visit_exprs xs

  visit_fields : Fields → List Visit
  visit_fields no_fields = []
  visit_fields (more_fields names type rest) = visit_names names ++ visit type ++ visit_fields rest

  pub visit_stmt : Stmt → List Visit
  visit_stmt absent_stmt = []
  visit_stmt (assign_stmt lhs tok rhs) = visit_exprs lhs ++ visit_exprs rhs
  visit_stmt (expr_stmt x) = visit x
  visit_stmt (return_stmt results) = visit_exprs results
  visit_stmt (branch_stmt tok label) = visit_label label
  visit_stmt (block_stmt body) = visit_stmts body
  visit_stmt (if_stmt init cond body other) =
      visit_stmt init ++ visit cond ++ visit_stmts body ++ visit_stmt other
  visit_stmt (for_stmt init cond post body) =
      visit_stmt init ++ visit cond ++ visit_stmt post ++ visit_stmts body
  visit_stmt (range_stmt key value x body) = visit key ++ visit value ++ visit x ++ visit_stmts body
  visit_stmt (switch_stmt init tag body) = visit_stmt init ++ visit tag ++ visit_clauses body
  visit_stmt (decl_stmt specs) = visit_specs specs
  visit_stmt (labeled_stmt label s) = visit_name label ++ visit_stmt s
  visit_stmt (inc_dec_stmt x) = visit x
  visit_stmt (send_stmt chan value) = visit chan ++ visit value
  visit_stmt (go_stmt x) = visit x
  visit_stmt (defer_stmt x) = visit x
  visit_stmt (type_switch_stmt init assign body) =
      visit_stmt init ++ visit_stmt assign ++ visit_clauses body
  visit_stmt (select_stmt body) = visit_comms body

  visit_stmts : Stmts → List Visit
  visit_stmts no_stmts = []
  visit_stmts (more_stmts s ss) = visit_stmt s ++ visit_stmts ss

  visit_clauses : Clauses → List Visit
  visit_clauses no_clauses = []
  visit_clauses (case_clause list body rest) =
      visit_exprs list ++ visit_stmts body ++ visit_clauses rest
  visit_clauses (default_clause body rest) = visit_stmts body ++ visit_clauses rest

  visit_comms : Comms → List Visit
  visit_comms no_comms = []
  visit_comms (comm_clause comm body rest) = visit_stmt comm ++ visit_stmts body ++ visit_comms rest

  visit_specs : Specs → List Visit
  visit_specs no_specs = []
  visit_specs (value_spec names type values rest) =
      visit_names names ++ visit type ++ visit_exprs values ++ visit_specs rest
  visit_specs (type_spec name type rest) = visit_name name ++ visit type ++ visit_specs rest
