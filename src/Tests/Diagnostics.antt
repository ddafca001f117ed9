-- ===== src/Tests/Diagnostics.antt =====
-- Runs of kclvm/error/src/lib.rs.
use kclvm.Prelude.{◌≡◌, refl, [], ◌∷◌, some, none, codes}
use kclvm.Handler.{Handler, Diagnostic, Level, new_with_code, classification, diagnostic_eq}
use kclvm.Handler.Kind.{ErrorKind, WarningKind, DiagnosticId}
use kclvm.Handler.Members.{IsDistinct}
use kclvm.Handler.Classes.{classification-of_level, of_level}
use kclvm.Tests.Data.{main_pos}

abbrev not_found : Diagnostic
not_found =
    new_with_code Level.error (codes "not found") none main_pos
      (some (DiagnosticId.error_id ErrorKind.cannot_find_module))

abbrev unused : Diagnostic
unused =
    new_with_code Level.warning (codes "unused") none main_pos
      (some (DiagnosticId.warning_id WarningKind.unused_import_warning))

abbrev both : Handler
both = unused ∷ not_found ∷ []

both-IsDistinct : IsDistinct both
unfolding IsDistinct diagnostic_eq
both-IsDistinct = ((refl, tt), (tt, tt))

classification-of_level_example :
    classification both ≡ (of_level Level.error both, of_level Level.warning both)
classification-of_level_example = classification-of_level both both-IsDistinct
