-- ===== src/Lib.antt =====
-- KCLVM: the lexers (kclvm/lexer and kclvm/parser/src/lexer), the type lattice and the operator
-- rules of the resolver in kclvm/sema with the diagnostics they report (kclvm/error), and the slices
-- of the runtime (kclvm/runtime), as definitions that run and theorems about them.
--
-- `parse_token_streams` of the parser makes the tokens of the AST from a text. Its loop takes the
-- first token of what is left of the text from kclvm/lexer, keeps a stack of indents and a stack of
-- brackets, computes the values of literals, and puts errors into the session.
--
-- The resolver computes a type for each expression of a KCL program. A type is a value of the
-- struct `Type` (kclvm/sema/src/ty/mod.rs), shared by `Rc` and never changed once shared.
-- `subsume` orders the types, `sup` joins a list of them, `infer_to_variable_type` widens the
-- type of a value to the type of the variable that holds it, and `binary`, `unary` and `compare`
-- use these to type the operators, with errors put into the handler.
--
-- Files:
-- - Ty/Kind, Ty/Flags, Ty/Equal: kclvm/sema/src/ty/mod.rs. The kinds, the cached bit flags with
--   the tests on them, and the derived `PartialEq` (field by field; an `f64` is its 64 bits).
-- - Ty/Build: constructor.rs and constants.rs of the same directory. Ty/Into: into.rs and the
--   names of types, `ty_str`. A downcast of a type of another kind panics in the source and is
--   `none` here.
-- - Ty/Unify: unify.rs. Its children are about totality (Total), the fuel (Fuel), unions
--   (Union), reflexivity (Reflexive), the type set (Flatten, Antichain, Sup), literals and
--   aliases.
-- - Ty/Context: context.rs and walker.rs, with the children Infer and Walk.
-- - Ty/WellFormed: the invariant that a type's flags say what its kind says.
-- - Handler: kclvm/error/src/lib.rs, diagnostic.rs and error.rs. The handler is a list of
--   diagnostics without duplicates, in the order of insertion; an operation takes it and returns
--   it.
-- - Resolver/Ops: the operators of kclvm/ast/src/ast.rs. Resolver/Calculation:
--   kclvm/sema/src/resolver/calculation.rs; the resolver's state there is the handler alone.
-- - Resolver/Check: check_type, dict_assignable_to_schema and must_assignable_to of
--   kclvm/sema/src/resolver/ty.rs, with the handler as state. Its children are about totality
--   (Combine, Total), the fuel (Fuel), errors (Report) and unions with schemas (Union).
-- - Resolver/Scope: kclvm/sema/src/resolver/scope.rs. The scopes stand in a list, a link between
--   them is a place in it, and the state is the list, the current place, the level, the local
--   variables and the handler. Its children are about lookup (Lookup, Insert), nesting
--   (Nesting), types (Types) and the way down to the children (Search, Children).
-- - Lexer: kclvm/lexer/src. Kind has the tokens of lib.rs, Cursor cursor.rs, Number number.rs,
--   Quoted the strings of kcl_cursor.rs, Scan the rest. Its children Eats, EatsNumber, Reads and
--   Pieces are about what each part eats, StringLiterals about quoted texts, and LiteralLength,
--   Exact, ExactStrings and FirstToken about the length of what is read.
-- - Parser/Token: kclvm/ast/src/token.rs, and the number suffixes of kclvm/ast/src/ast.rs.
-- - Parser/Lexer: kclvm/parser/src/lexer. State, Symbols, Literal and Loop are mod.rs, Indent is
--   indent.rs, Escapes and Strings are string.rs. An operation takes the state and returns it, in
--   Run: a value, a panic, or no more fuel. The session is the list of errors in the state. The other
--   children are about slices (Slices, Drops), strings (EscapesLeft, StringsEnd, ScalarValues,
--   ScalarStrings), what each part changes (LiteralFrame, SymbolsFrame, IndentFrame, Skips) and the
--   loops (Turns, Streams, Balanced), with the checks of the tokens in Nesting, and texts of ASCII
--   characters (AsciiSlices, StringsWorks, LiteralWorks, SymbolsWorks, TurnsWorks, NoPanic).
-- - Runtime/Slice: slices in kclvm/runtime/src/value/val_list.rs, of a list of elements or of the
--   characters of a string. A bound is the integer of its value, or `none`; a panic is `none`. Its
--   children are about the range of `i64` (Steps), panics (Returns) and what slices are (Reference,
--   Reversed).
-- - Prelude: Boolean tests, lists, options and integers. Tests: runs at concrete types.
--
-- Parameters: `show_f64`, how the standard library prints the bits of a float; `is_id_start` and
-- `is_id_continue` of rustc_lexer and `is_emoji` of unic_emoji_char, tests on characters;
-- `character` of unicode_names2, which gives the character of a name; `overflow_checks`, the setting
-- of the build. Nothing is assumed of them but in two theorems that the characters of names are
-- Unicode scalar values. Text is a list of code points. A position's path and a schema's name are such texts.
--
-- Bounds: `subsume` recurses on fuel that starts with the sum of the sizes of the two types. Each
-- recursive call is on smaller types, so that is enough. The same holds of `check_type`. `lookup`
-- starts with the place of the scope, since parents stand before their children, and `inner_most`
-- with the number of scopes, since each step goes further back in the list. `scope_level` is a
-- `usize` of 64 bits that wraps around, as in a release build. `walk_type` walks what the given
-- function returns, so its bound is a parameter. `tokenize`, the loops of the parser's lexer and the
-- value of a string have one more than the number of characters that are left, since each turn reads
-- a character. The loop over dedents has two more than the height of the stack. Positions in a text
-- are numbers without a bound, for texts below 4 GiB; the digits of escapes are added up modulo
-- 2 ^ 32. An `i64` of a slice is an integer; the two sums that can leave the range of `i64`, `-step` and
-- `cur += step`, wrap around or panic, as `overflow_checks` says. The other sums stay in the range, for
-- `i64` bounds and lists of fewer than 2 ^ 63 elements.
--
-- Not modelled: the attributes, documentation and decorators of schemas beyond their place in the
-- derived equality; the search for all objects of a name below a scope; the parser of type
-- annotations; the resolver's walk over the program, its imports and configurations; the last
-- character that a cursor keeps in debug builds; the parser behind its lexer, the code generator,
-- and the rest of the runtime and the tools of KCL, which work on other data.
pub mod Handler
pub mod Lexer
pub mod Parser
pub mod Prelude
pub mod Resolver
pub mod Runtime
pub mod Tests
pub mod Ty
