-- ===== src/Handler.antt =====
-- kclvm/error/src/lib.rs and diagnostic.rs: source positions in order, and the handler that collects
-- diagnostics in an insertion-ordered set.
pub mod Kind
pub mod Grows
pub mod Classes
pub mod Members
use kclvm.Prelude.{
  ℕ, Bool, true, false, not, ◌&&◌, ◌||◌, ◌==◌, ltb, List, [], ◌∷◌, ◌++◌, Option, some, none, Text,
  codes, any, text_eq, if◌then◌else◌,
}
use kclvm.Ty.Kind.{Position}
use Kind.{ErrorKind, WarningKind, DiagnosticId, id_eq}
use kclvm.Ty.Equal.{position_eq, option_eq, list_eq}

abbrev pub dummy_pos : Position
dummy_pos = record { filename = []; line = 1; column = none }

unfoldable pub is_valid : Position → Bool
is_valid p = ltb 0 p.line

abbrev column_less : Option ℕ → Option ℕ → Bool
column_less (some a) (some b) = ltb a b
column_less _ _ = false

unfoldable pub less : Position → Position → Bool
less p q =
    if not (is_valid p) || not (is_valid q) || not (text_eq p.filename q.filename)
    then false
    else if ltb p.line q.line
    then true
    else if p.line == q.line
    then column_less p.column q.column
    else false

unfoldable pub less_equal : Position → Position → Bool
less_equal p q =
    if not (is_valid p) || not (is_valid q)
    then false
    else if less p q
    then true
    else position_eq p q

pub data Level : Type 0 where
  error warning note : Level

pub data Style : Type 0 where
  empty line_and_column line_only : Style

pub record Message : Type 0 where
  pub pos : Position
  pub style : Style
  pub message : Text
  pub note : Option Text

pub record Diagnostic : Type 0 where
  pub level : Level
  pub messages : List Message
  pub code : Option DiagnosticId

abbrev pub level_eq : Level → Level → Bool
level_eq Level.error Level.error = true
level_eq Level.warning Level.warning = true
level_eq Level.note Level.note = true
level_eq _ _ = false

abbrev pub style_eq : Style → Style → Bool
style_eq Style.empty Style.empty = true
style_eq Style.line_and_column Style.line_and_column = true
style_eq Style.line_only Style.line_only = true
style_eq _ _ = false

abbrev pub message_eq : Message → Message → Bool
message_eq m n =
    position_eq m.pos n.pos
    && style_eq m.style n.style
    && text_eq m.message n.message
    && option_eq text_eq m.note n.note

unfoldable pub diagnostic_eq : Diagnostic → Diagnostic → Bool
diagnostic_eq d e =
    level_eq d.level e.level
    && list_eq message_eq d.messages e.messages
    && option_eq id_eq d.code e.code

-- `Handler`: an `IndexSet<Diagnostic>` in insertion order.
abbrev pub Handler : Type 0
Handler = List Diagnostic

unfoldable pub has_diagnostic : Handler → Diagnostic → Bool
has_diagnostic [] d = false
has_diagnostic (e ∷ es) d = diagnostic_eq e d || has_diagnostic es d

unfoldable pub add_diagnostic : Handler → Diagnostic → Handler
add_diagnostic h d = if has_diagnostic h d then h else h ++ d ∷ []

abbrev pub new_with_code : Level → Text → Option Text → Position → Option DiagnosticId → Diagnostic
new_with_code l msg n p c = record {
  level = l;
  messages = record { pos = p; style = Style.line_and_column; message = msg; note = n } ∷ [];
  code = c;
}

unfoldable pub add_type_error : Text → Position → Handler → Handler
add_type_error msg p h =
    add_diagnostic h
      (new_with_code Level.error msg none p (some (DiagnosticId.error_id ErrorKind.type_error)))

unfoldable pub add_compile_error : Text → Position → Handler → Handler
add_compile_error msg p h =
    add_diagnostic h
      (new_with_code Level.error msg none p (some (DiagnosticId.error_id ErrorKind.compile_error)))

unfoldable pub add_error : ErrorKind → List Message → Handler → Handler
add_error kind msgs h =
    add_diagnostic h
      (record { level = Level.error; messages = msgs; code = some (DiagnosticId.error_id kind) })

unfoldable pub add_syntex_error : Text → Position → Handler → Handler
add_syntex_error msg p h = add_diagnostic h (
    new_with_code Level.error (codes "Invalid syntax: " ++ msg) none p
      (some (DiagnosticId.error_id ErrorKind.invalid_syntax)))

unfoldable pub add_warning : WarningKind → List Message → Handler → Handler
add_warning kind msgs h =
    add_diagnostic h (record {
      level = Level.warning;
      messages = msgs;
      code = some (DiagnosticId.warning_id kind);
    })

unfoldable pub has_errors : Handler → Bool
has_errors h = any (λ d. level_eq d.level Level.error) h

-- The loop of `classification`, over the diagnostics that are left.
unfoldable pub classify : List Diagnostic → Handler → Handler → Handler × Handler
classify [] errs warnings = (errs, warnings)
classify (d ∷ ds) errs warnings =
    if level_eq d.level Level.error
    then classify ds (add_diagnostic errs d) warnings
    else if level_eq d.level Level.warning
    then classify ds errs (add_diagnostic warnings d)
    else classify ds errs warnings

unfoldable pub classification : Handler → Handler × Handler
classification h = classify h [] []
