-- ===== src/Handler/Classes.antt =====
-- The classes that `classification` of kclvm/error/src/lib.rs splits a handler into.
use kclvm.Prelude.{
  true, false, ◌≡◌, refl, ◌∙◌, ap, inl, inr, List, [], ◌∷◌, ◌++◌, All, Bool-cases, arith,
  if◌then◌else◌,
}
use kclvm.Prelude.Pairs.{AllPairs, All-imp, All-both}
use mathlib.Core.List.{append-nil, append_assoc}
use kclvm.Handler.{
  Handler, Diagnostic, Level, level_eq, add_diagnostic, has_diagnostic, classify, classification,
}
use kclvm.Handler.Members.{IsDistinct, Differ}

-- The diagnostics of one level, in their order.
unfoldable pub of_level : Level → Handler → Handler
of_level l [] = []
of_level l (d ∷ ds) = if level_eq d.level l then d ∷ of_level l ds else of_level l ds

abbrev IsAbsent : Handler → Diagnostic → Type 0
IsAbsent h d = has_diagnostic h d ≡ false

IsAbsent-snoc :
    (h : Handler) (d e : Diagnostic) → IsAbsent h e → Differ d e → IsAbsent (h ++ d ∷ []) e
unfolding has_diagnostic
IsAbsent-snoc [] d e a f = ground arith
IsAbsent-snoc (x ∷ h) d e a f = let ih = IsAbsent-snoc h d e in ground arith

All-IsAbsent-snoc :
    (h : Handler) (d : Diagnostic) (ds : List Diagnostic)
    → All (IsAbsent h) ds
    → All (Differ d) ds
    → All (IsAbsent (h ++ d ∷ [])) ds
All-IsAbsent-snoc h d ds a f =
    All-imp (λ e. IsAbsent h e × Differ d e) (IsAbsent (h ++ d ∷ []))
      (λ e q. IsAbsent-snoc h d e q.0 q.1) ds (All-both (IsAbsent h) (Differ d) ds a f)

add-absent : (h : Handler) (d : Diagnostic) → IsAbsent h d → add_diagnostic h d ≡ h ++ d ∷ []
unfolding add_diagnostic
add-absent h d a = rw a refl

error_no_warning : (l : Level) → level_eq l Level.error ≡ true → level_eq l Level.warning ≡ false
error_no_warning Level.error h = refl
error_no_warning Level.warning h = cc
error_no_warning Level.note h = cc

classify-of_level :
    (ds errs warnings : Handler)
    → AllPairs Differ ds
    → All (IsAbsent errs) ds
    → All (IsAbsent warnings) ds
    → classify ds errs warnings
      ≡ (errs ++ of_level Level.error ds, warnings ++ of_level Level.warning ds)
unfolding classify of_level
classify-of_level [] errs warnings p a b = rw (append-nil errs, append-nil warnings) refl
classify-of_level (d ∷ ds) errs warnings p a b = elim (Bool-cases (level_eq d.level Level.error)) [
  | inl e ↦
      rw (e, error_no_warning d.level e, add-absent errs d a.0)
        (classify-of_level ds (errs ++ d ∷ []) warnings p.1 (All-IsAbsent-snoc errs d ds a.1 p.0)
            b.1
          ∙ ap (λ (x : Handler). (x, warnings ++ of_level Level.warning ds))
              (append_assoc errs (d ∷ []) (of_level Level.error ds)))
  | inr e ↦ elim (Bool-cases (level_eq d.level Level.warning)) [
    | inl g ↦
        rw (e, g, add-absent warnings d b.0)
          (classify-of_level ds errs (warnings ++ d ∷ []) p.1 a.1
              (All-IsAbsent-snoc warnings d ds b.1 p.0)
            ∙ ap (λ (x : Handler). (errs ++ of_level Level.error ds, x))
                (append_assoc warnings (d ∷ []) (of_level Level.warning ds)))
    | inr g ↦ rw (e, g) (classify-of_level ds errs warnings p.1 a.1 b.1)
  ]
]

none-IsAbsent : (ds : List Diagnostic) → All (IsAbsent []) ds
unfolding has_diagnostic
none-IsAbsent [] = tt
none-IsAbsent (d ∷ ds) = (refl, none-IsAbsent ds)

-- Of a handler whose diagnostics differ, `classification` gives the errors and the warnings, each
-- with none lost and in their order.
pub classification-of_level :
    (h : Handler)
    → IsDistinct h
    → classification h ≡ (of_level Level.error h, of_level Level.warning h)
unfolding IsDistinct classification
classification-of_level h p = classify-of_level h [] [] p (none-IsAbsent h) (none-IsAbsent h)
