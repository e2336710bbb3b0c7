-- ===== src/Syntax.antt =====
-- The part of Go's syntax tree (go/ast) that the passes of internal/compiler read. A nil
-- expression or statement is `absent` or `absent_stmt`. Positions, comments and field tags are
-- left out. The parser of the language turns `try` into a statement that calls `GhiTry` on three
-- function literals or nil, and `throw` into a call of `GhiThrow` (exception_parse.go).
use ghi.Prelude.{String, Bool, false, Option, List, str_eq}

pub data Token : Type 0 where
  assign_token define_token op_assign_token : Token
  land lor eql neq not_token and_token arrow_token other_op : Token

pub data BranchToken : Type 0 where
  break_token continue_token goto_token fallthrough_token : BranchToken

mutual
  pub data Expr : Type 0 where
    absent : Expr
    ident : String → Expr
    basic_lit : String → Expr
    ellipsis : Expr → Expr
    func_lit : (params results : Fields) → Stmts → Expr
    composite_lit : Expr → Exprs → Expr
    paren : Expr → Expr
    selector : Expr → String → Expr
    index_expr : Expr → Expr → Expr
    index_list : Expr → Exprs → Expr
    slice_expr : (x low high max : Expr) → Expr
    type_assert : Expr → Expr → Expr
    call : Expr → Exprs → Expr
    star : Expr → Expr
    unary : Token → Expr → Expr
    binary : Token → Expr → Expr → Expr
    key_value : Expr → Expr → Expr
    array_type : (len elt : Expr) → Expr
    struct_type : Fields → Expr
    func_type : (params results : Fields) → Expr
    interface_type : Fields → Expr
    map_type : Expr → Expr → Expr
    chan_type : Expr → Expr

  pub data Exprs : Type 0 where
    no_exprs : Exprs
    more_exprs : Expr → Exprs → Exprs

  -- `ast.FieldList`: names and a type each.
  pub data Fields : Type 0 where
    no_fields : Fields
    more_fields : (names : List String) → Expr → Fields → Fields

  pub data Stmt : Type 0 where
    absent_stmt : Stmt
    assign_stmt : Exprs → Token → Exprs → Stmt
    expr_stmt : Expr → Stmt
    return_stmt : Exprs → Stmt
    branch_stmt : BranchToken → Option String → Stmt
    block_stmt : Stmts → Stmt
    if_stmt : (init : Stmt) (cond : Expr) (body : Stmts) (other : Stmt) → Stmt
    for_stmt : (init : Stmt) (cond : Expr) (post : Stmt) (body : Stmts) → Stmt
    range_stmt : (key value x : Expr) (body : Stmts) → Stmt
    switch_stmt : (init : Stmt) (tag : Expr) (body : Clauses) → Stmt
    decl_stmt : Specs → Stmt
    labeled_stmt : String → Stmt → Stmt
    inc_dec_stmt : Expr → Stmt
    send_stmt : Expr → Expr → Stmt
    go_stmt : Expr → Stmt
    defer_stmt : Expr → Stmt
    type_switch_stmt : (init assign : Stmt) (body : Clauses) → Stmt
    select_stmt : Comms → Stmt

  pub data Stmts : Type 0 where
    no_stmts : Stmts
    more_stmts : Stmt → Stmts → Stmts

  -- The case clauses of a switch. `default` is the clause whose list is nil.
  pub data Clauses : Type 0 where
    no_clauses : Clauses
    case_clause : Exprs → Stmts → Clauses → Clauses
    default_clause : Stmts → Clauses → Clauses

  -- The clauses of a select.
  pub data Comms : Type 0 where
    no_comms : Comms
    comm_clause : Stmt → Stmts → Comms → Comms

  -- The specs of a declaration statement.
  pub data Specs : Type 0 where
    no_specs : Specs
    value_spec : (names : List String) → Expr → Exprs → Specs → Specs
    type_spec : String → Expr → Specs → Specs

abbrev pub is_ident : Expr → String → Bool
is_ident (ident x) name = str_eq x name
is_ident _ name = false

-- `callNamed`: a call of the plain name `name`.
abbrev pub is_call : Expr → String → Bool
is_call (call fun args) name = is_ident fun name
is_call _ name = false
