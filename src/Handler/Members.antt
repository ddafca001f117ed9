-- ===== src/Handler/Members.antt =====
-- The set of diagnostics in kclvm/error/src/lib.rs: what is added is there.
use kclvm.Prelude.{
  ◌≡◌, refl, inl, inr, ◌==◌, Bool, true, false, List, [], ◌∷◌, ◌++◌, Option, some, none, text_eq,
  text_eq_refl, Bool-cases, arith,
}
use kclvm.Prelude.Pairs.{AllPairs}
use kclvm.Handler.{
  Handler, Diagnostic, Message, Level, Style, level_eq, style_eq, message_eq, diagnostic_eq,
  add_diagnostic, has_diagnostic,
}
use kclvm.Ty.Kind.{Position}
use kclvm.Handler.Kind.{id_eq, id_eq_refl}
use kclvm.Ty.Equal.{position_eq, option_eq, list_eq}

module _ {ℓ} {A : Type ℓ} (eq : A → A → Bool) (eq_refl : (a : A) → eq a a ≡ true) where
  option_eq_refl : (o : Option A) → option_eq eq o o ≡ true
  option_eq_refl none = refl
  option_eq_refl (some a) = eq_refl a

  list_eq_refl : (xs : List A) → list_eq eq xs xs ≡ true
  list_eq_refl [] = refl
  list_eq_refl (x ∷ xs) = rw (eq_refl x, list_eq_refl xs) refl

position_eq_refl : (p : Position) → position_eq p p ≡ true
position_eq_refl p =
    let line : (p.line == p.line) ≡ true = ground arith in
    rw (text_eq_refl p.filename, line, option_eq_refl ◌==◌ (λ n. ground arith) p.column) refl

style_eq_refl : (s : Style) → style_eq s s ≡ true
style_eq_refl Style.empty = refl
style_eq_refl Style.line_and_column = refl
style_eq_refl Style.line_only = refl

level_eq_refl : (l : Level) → level_eq l l ≡ true
level_eq_refl Level.error = refl
level_eq_refl Level.warning = refl
level_eq_refl Level.note = refl

message_eq_refl : (m : Message) → message_eq m m ≡ true
message_eq_refl m =
    rw
      (
        position_eq_refl m.pos,
        style_eq_refl m.style,
        text_eq_refl m.message,
        option_eq_refl text_eq text_eq_refl m.note,
      )
      refl

diagnostic_eq_refl : (d : Diagnostic) → diagnostic_eq d d ≡ true
unfolding diagnostic_eq
diagnostic_eq_refl d =
    rw
      (
        level_eq_refl d.level,
        list_eq_refl message_eq message_eq_refl d.messages,
        option_eq_refl id_eq id_eq_refl d.code,
      )
      refl

has_diagnostic-append : (h : Handler) (d : Diagnostic) → has_diagnostic (h ++ d ∷ []) d ≡ true
unfolding has_diagnostic
has_diagnostic-append [] d = rw (diagnostic_eq_refl d) refl
has_diagnostic-append (e ∷ h) d = let ih = has_diagnostic-append h d in ground arith

-- A diagnostic that is added is in the handler.
pub has_diagnostic-add_diagnostic :
    (h : Handler) (d : Diagnostic) → has_diagnostic (add_diagnostic h d) d ≡ true
unfolding add_diagnostic
has_diagnostic-add_diagnostic h d = elim (Bool-cases (has_diagnostic h d)) [
  | inl e ↦ rw (e, e) refl
  | inr e ↦ rw e (has_diagnostic-append h d)
]

-- No two diagnostics of the handler are equal.
abbrev pub Differ : Diagnostic → Diagnostic → Type 0
Differ d e = diagnostic_eq d e ≡ false

unfoldable pub IsDistinct : Handler → Type 0
IsDistinct h = AllPairs Differ h
