-- ===== src/Handler/Grows.antt =====
-- Diagnostics are only ever added, at the end, and each at most once.
use kclvm.Prelude.{
  ◌≡◌, refl, inl, inr, sym, List, [], ◌∷◌, ◌++◌, Text, Bool-cases, length, length-append, arith,
  ◌≤◌, ◌+◌,
}
use mathlib.Core.List.{append-nil, append_assoc}
use kclvm.Handler.{
  Handler, Diagnostic, Message, add_diagnostic, has_diagnostic, add_type_error, add_compile_error,
  add_error,
}
use kclvm.Handler.Kind.{ErrorKind}
use kclvm.Ty.Kind.{Position}

-- The second handler has the diagnostics of the first, and more behind them.
pub Extends : Handler → Handler → Type 0
Extends h k = (more : List Diagnostic) × (k ≡ h ++ more)

pub Extends-refl : (h : Handler) → Extends h h
unfolding Extends
Extends-refl h = ([], sym (append-nil h))

pub Extends-trans : (g h k : Handler) → Extends g h → Extends h k → Extends g k
unfolding Extends
Extends-trans g h k (a, e) (b, d) = (a ++ b, rw (d, e) (append_assoc g a b))

pub add_diagnostic-Extends : (h : Handler) (d : Diagnostic) → Extends h (add_diagnostic h d)
unfolding Extends add_diagnostic
add_diagnostic-Extends h d = elim (Bool-cases (has_diagnostic h d)) [
  | inl e ↦ rw e ([], sym (append-nil h))
  | inr e ↦ rw e (d ∷ [], refl)
]

pub add_type_error-Extends :
    (msg : Text) (p : Position) (h : Handler) → Extends h (add_type_error msg p h)
unfolding add_type_error
add_type_error-Extends msg p h = add_diagnostic-Extends h _

pub add_error-Extends :
    (kind : ErrorKind) (msgs : List Message) (h : Handler) → Extends h (add_error kind msgs h)
unfolding add_error
add_error-Extends kind msgs h = add_diagnostic-Extends h _

pub add_compile_error-Extends :
    (msg : Text) (p : Position) (h : Handler) → Extends h (add_compile_error msg p h)
unfolding add_compile_error
add_compile_error-Extends msg p h = add_diagnostic-Extends h _

pub length-add_diagnostic :
    (h : Handler) (d : Diagnostic) → length (add_diagnostic h d) ≤ length h + 1
unfolding add_diagnostic
length-add_diagnostic h d = elim (Bool-cases (has_diagnostic h d)) [
  | inl e ↦ rw e (omega arith)
  | inr e ↦ rw e (omega (arith, length-append h (d ∷ [])))
]

pub length-add_error :
    (kind : ErrorKind) (msgs : List Message) (h : Handler)
    → length (add_error kind msgs h) ≤ length h + 1
unfolding add_error
length-add_error kind msgs h = length-add_diagnostic h _
