-- ===== src/Lib.antt =====
-- A model of the core of Ghi: a compiler from a language with classes, exceptions and nullable types
-- to Go (internal/compiler), and its development watchers (internal/watch).
--
-- The compiler rewrites the surface syntax to Go, keeps the origins of the rewritten bytes, parses
-- the result with go/parser, prepares the classes, checks constructors and control flow on the
-- syntax tree, and writes Go. The watchers call it whenever the sources change. The parts that are
-- modelled, and their files:
--
-- - Syntax: the part of go/ast that the checks read. An absent expression or statement is nil.
-- - Construction: internal/compiler/construction.go and construction_flow.go. Visit is the callback
--   of `read` under ast.Inspect; Flow has the sets of initialized fields, the exits and
--   `mergeConstructorExits`; Exits the loops over exits; Steps the cases of `step`; Check ties them
--   together as `step`, `paths` and `try_paths`; Class is `validateConstruction` on one class, with
--   `mentionsTypeParameter` of generics.go. Maps are values: the source clones a state wherever two
--   paths would share it. The errors are kept in order, and the program reports the first.
--   Runs is what a constructor does when it runs, as a relation that is independent of the check.
--   Lowered, Grows, Covers, Parts, Loops, Tries, Cases, Sound and Accepted hold the proofs.
-- - Control: `blockTerminates` of internal/compiler/control_flow.go, against the same runs.
-- - Coverage: internal/compiler/coverage_source.go. Edits has the source map with `apply`,
--   `applyExpression`, `finish` and `position`, and the edited source as the parsers write it.
--   The slices between the edits of a pass must be within its source: Ternary and Match check this
--   with `fits`, and have an outcome for the panic of the program.
--   An origin of -1 is `none`. `delta` is kept as what the edits add and what they take.
-- - Classes: internal/compiler/class_model.go. Model has member lookup, `allMethods`, `accessible`
--   and the override checks of `prepareClasses`; a class comes with its ancestors as a list, and
--   Cycles is the search that makes sure that the ancestors are one. Parameters has the checks of
--   `parseFunction` in frontend.go, `parameters`, `results`, `argumentNames` and `signature`; the
--   proofs are in Members, Overrides and Arity.
-- - Tokens: the loop of `AnalyzeSource` in internal/compiler/analyze.go over the scanned tokens, in
--   Pairs; an index past the source, which panics and is recovered, is an outcome. Balance has balanced lists of delimiters, and Balanced the proofs.
-- - Match: `validateExhaustiveMatches` of internal/compiler/match_exhaustive.go on one function.
--   What go/types says of the subject and of a candidate is a parameter. Named says which case a candidate names, and Exact holds the proofs.
--   The syntax of a match, internal/compiler/match_parse.go: Arms has the loops over the arms and
--   `match` of internal/compiler/frontend.go, Round one round of `normalizeMatches`; the scanner is
--   a parameter. Sorted, Rewritten, Placed, Lexed and Ordered hold the proofs.
-- - Format: `FormatProject` of internal/compiler/format.go, in Project. The file tree, the answers
--   of the context and the results of the file operations are inputs; `FormatSource` is a parameter.
--   Replaced has the sources that are due, read off the tree, and the proofs. The printer,
--   `formatStructure` of internal/compiler/format_structure.go: Kinds has the kinds of token and
--   `formatSpace`, Printer the frames and the closures `newline`, `emit`, `header` and `lastCode`,
--   Steps and Layout the rounds of the loop in the order of the source, Flatten and Imports the two
--   passes over the imports, Structure the whole. Loops over an index are structural recursion on
--   the tokens: an index that jumps ahead is a count of tokens to pass over. In `header`, a brace
--   that has no partner is not jumped over; where delimiters are balanced, each has one. The
--   indentation is a natural number. Woven, Depth, Indented, Levels, Indentation, Contents,
--   Permuted and Blocks hold the proofs.
-- - Ternary: internal/compiler/ternary_parse.go. Tokens has `ternaryTokens` and `ternaryInHeader`,
--   Bounds the operands and edits of one round, Loop `normalizeTernaries` with the source maps of
--   Coverage. The scanner, `scanFormatTokens`, and `parser.ParseExpr` are parameters. The loop takes
--   fuel, which its rounds use up one by one. Ordered, Edited and Ends hold the proofs.
-- - Arrow: `normalizeArrows` of internal/compiler/arrow_parse.go, in Parse, with the source maps of
--   Coverage; the scanner and `parser.ParseExpr` are parameters. Spliced and Lines hold the proofs.
-- - New: `normalizeNew` of internal/compiler/new_parse.go and `erase` of
--   internal/compiler/frontend.go, in Marks; the tokens are an argument, as they are there, and a
--   write past the end is an outcome. Widths and Range hold the proofs.
-- - Nullable: `normalizeNullable` of internal/compiler/nullable_parse.go, in Stars; the scanner is a
--   parameter. Restored holds the proofs.
-- - Inheritance: `classBindings`, `substituteType` and `ancestorArguments` of
--   internal/compiler/inheritance.go, in Types. Whether the parser has resolved a name, and
--   `typeText`, are parameters. Compose and Chains hold the proofs.
-- - Cache: `valid`, `snapshot` and `store` of internal/compiler/build_cache.go. The workspace is a
--   list of names and digests, and the outcome of every file operation is an input: done, failed
--   or cut off. Safe holds the proofs.
-- - Watch: `Run` of internal/watch/watch.go. State has the variables of the loop, one handler for
--   each case of its select statement, and the deferred calls. The clock, the snapshots of the
--   sources, the end of a build and of a process come as events, and a sequence of them is a list
--   of rounds. Log reads the record of the calls that the loop made.
-- - TestWatch: `Tests` of internal/watch/tests.go, in the same way.
-- - Prelude: numbers, lists and texts that the parts share.
--
-- Bounds: the generation of the watcher wraps at 2^64, and its theorems take fewer rounds than that.
-- The cycle search has fuel, one round more than there are classes; the loop over the ternaries needs
-- one round more than the source has question marks.
--
-- Not modelled: whether a type names a class (`sourceNeedsInitialization`) and the text of a
-- signature (`typeText`) are parameters, since they look through the files of a program. The file
-- system, processes, go/scanner, go/parser and go/types are outside, and so are the passes that
-- write Go text and the nullable analysis. Of the lowering of control flow only `blockTerminates` is
-- modelled: the pass lowers a function literal again each time that it reaches it.
pub mod Prelude
pub mod Syntax
pub mod Construction
pub mod Control
pub mod Coverage
pub mod Classes
pub mod Watch
pub mod TestWatch
pub mod Arrow
pub mod Cache
pub mod Format
pub mod Inheritance
pub mod Match
pub mod New
pub mod Nullable
pub mod Ternary
pub mod Tokens
