-- ===== src/Resolver/Check/Report.antt =====
-- The errors of `must_assignable_to` in kclvm/sema/src/resolver/ty.rs.
use kclvm.Prelude.{
  List, Bool, true, false, ◌≡◌, refl, some, Text, Option, if◌then◌else◌, not, length, arith, ◌≤◌,
  ◌+◌,
}
use kclvm.Handler.{Message, Handler, Diagnostic, Level, add_error, has_diagnostic}
use kclvm.Handler.Kind.{ErrorKind, DiagnosticId}
use kclvm.Handler.Grows.{Extends, Extends-refl, Extends-trans, add_error-Extends, length-add_error}
use kclvm.Handler.Members.{has_diagnostic-add_diagnostic}
use kclvm.Ty.Kind.{Ty, F64, Position}
use kclvm.Ty.WellFormed.{IsWellFormed}
use kclvm.Resolver.Check.{check_type, must_assignable_to, mismatch_messages}
use kclvm.Resolver.Check.Combine.{HasWellFormedIndexes, Checks}
use kclvm.Resolver.Check.Total.{check_type-Checks}

module _ (show_f64 : F64 → Text) where
  abbrev pub mismatch : Ty → Ty → Position → Option Position → Diagnostic
  mismatch t expected p expected_pos = record {
    level = Level.error;
    messages = mismatch_messages show_f64 t expected p expected_pos;
    code = some (DiagnosticId.error_id ErrorKind.type_error);
  }

  -- On well-formed types `must_assignable_to` returns, if the index signatures of the schemas in
  -- the expected type are well formed too. The handler keeps all its diagnostics and gets new ones
  -- at the end only. It has those of the check, in their order: no other, if the check succeeds, and
  -- else the error with both types as well, and no more than that one.
  pub must_assignable_to-reports :
      (t expected : Ty) (p : Position) (expected_pos : Option Position) (h : Handler)
      → IsWellFormed t
      → IsWellFormed expected
      → HasWellFormedIndexes expected
      → (b : Bool) × (k : Handler) × (j : Handler) × (check_type show_f64 t expected p h
          ≡ some (b, k))
        × (must_assignable_to show_f64 t expected p expected_pos h ≡ some j)
        × Extends h j
        × Extends k j
        × (length j ≤ length k + 1)
        × (b ≡ true → j ≡ k)
        × (b ≡ false → has_diagnostic j (mismatch t expected p expected_pos) ≡ true)
  unfolding must_assignable_to Checks
  must_assignable_to-reports t expected p q h w v x =
      let (b, k, e, m) = check_type-Checks show_f64 t expected p h w v x in
      let (j, d, n, o, l, s, f) = report b k m in (b, k, j, e, rw e d, n, o, l, s, f)
    where
      msgs : List Message
      msgs = mismatch_messages show_f64 t expected p q

      report :
          (b : Bool) (k : Handler)
          → Extends h k
          → (j : Handler) × (some (if not b then add_error ErrorKind.type_error msgs k else k)
              ≡ some j)
            × Extends h j
            × Extends k j
            × (length j ≤ length k + 1)
            × (b ≡ true → j ≡ k)
            × (b ≡ false → has_diagnostic j (mismatch t expected p q) ≡ true)
      report true k m = (k, refl, m, Extends-refl k, omega arith, λ e. refl, λ e. cc)
      report false k m = (
        add_error ErrorKind.type_error msgs k,
        refl,
        Extends-trans h k _ m (add_error-Extends ErrorKind.type_error msgs k),
        add_error-Extends ErrorKind.type_error msgs k,
        length-add_error ErrorKind.type_error msgs k,
        λ e. cc,
        λ e. unfold add_error in has_diagnostic-add_diagnostic k (mismatch t expected p q),
      )
