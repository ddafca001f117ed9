-- ===== src/Parser/Lexer/LiteralWorks.antt =====
-- On a text of ASCII characters, a literal inside the text is read without a panic.
use kclvm.Prelude.{
  ℕ, ◌+◌, ◌-◌, ◌≤◌, ◌≡◌, ◌⊎◌, inl, inr, sym, subst, Bool, true, false, not, Option, none, some,
  Text, arith, ltb,
}
use kclvm.Lexer.Kind.{Base, LiteralKind, TokenKind}
use kclvm.Lexer.FirstToken.{Fits}
use kclvm.Lexer.Cursor.{str_len}
use kclvm.Lexer.Eats.{if_lem}
use kclvm.Parser.Token.{is_suffix_name}
use kclvm.Parser.Lexer.Run.{returned, Works, Works-bind, Works-both, Works-imp}
use kclvm.Parser.Lexer.State.{Lexer, char_from, str_from, str_from_to}
use kclvm.Parser.Lexer.AsciiSlices.{IsAscii, Ascii}
use kclvm.Parser.Lexer.ScalarValues.{IsScalar, IfSome}
use kclvm.Parser.Lexer.LiteralFrame.{
  Any, Keeps, validate_literal_int-Gives, validate_literal_float-Keeps, lex_literal-Gives,
}
use kclvm.Parser.Lexer.Literal.{
  radix, validate_in, validate_literal_int, validate_literal_float, checked_symbol, int_suffix,
  lex_int, lex_float, lex_literal,
}
use kclvm.Parser.Lexer.StringsWorks.{Inside, Inside-Keeps, str_from_to-Works, lex_string-Works}

validate_in-Works :
    (o : Option ℕ) (start n : ℕ) (lx : Lexer)
    → Inside lx start (start + n)
    → 2 ≤ n
    → Works Any (validate_in o start (start + n) lx)
validate_in-Works none start n lx h two = tt
validate_in-Works (some base) start n lx h two =
    Works-bind Ascii Any (str_from_to lx (start + 2) (start + n)) _
      (str_from_to-Works lx (start + 2) (start + n)
        (h.0, omega (arith, h.1), omega (arith, two), h.3))
      (λ _ _. tt)

validate_literal_int-Works :
    (base : Base) (start n : ℕ) (lx : Lexer)
    → Inside lx start (start + n)
    → (base ≡ Base.decimal) ⊎ (2 ≤ n)
    → Works (Keeps lx) (validate_literal_int base start (start + n) lx)
unfolding validate_literal_int
validate_literal_int-Works base start n lx h p =
    Works-imp _ (Keeps lx) (validate_literal_int base start (start + n) lx) (λ r p. p.0)
      (Works-both (Keeps lx) Any (validate_literal_int base start (start + n) lx)
        (validate_literal_int-Gives base start (start + n) lx)
        (elim p [
          | inl e ↦ subst (λ b. Works Any (validate_in (radix b) start (start + n) lx)) (sym e) tt
          | inr two ↦ validate_in-Works (radix base) start n lx h two
        ]))

checked_symbol-Works :
    (ok : Bool) (lx : Lexer) (a b : ℕ) → Inside lx a b → Works Any (checked_symbol ok lx a b)
checked_symbol-Works ok lx a b h =
    if_lem (Works Any) ok
      (Works-imp Ascii Any (str_from_to lx a b) (λ _ _. tt) (str_from_to-Works lx a b h)) tt

int_suffix-Works :
    (start a : ℕ) (lx : Lexer) → Inside lx a lx.pos → Works Any (int_suffix start a lx)
unfolding int_suffix str_from
int_suffix-Works start a lx h =
    if_lem (Works Any) (ltb a lx.pos)
      (Works-bind Ascii Any (str_from_to lx a lx.pos) _ (str_from_to-Works lx a lx.pos h)
        (λ s _. if_lem (Works Any) (not (is_suffix_name s)) tt tt))
      tt

lex_int-Works :
    (base : Base) (empty : Bool) (start n : ℕ) (lx : Lexer)
    → Inside lx start (start + n)
    → start + n ≤ lx.pos
    → lx.pos ≤ lx.start_pos + str_len lx.src
    → (base ≡ Base.decimal) ⊎ (2 ≤ n)
    → Works Any (lex_int base empty start (start + n) lx)
unfolding lex_int
lex_int-Works base true start n lx h l e p = tt
lex_int-Works base false start n lx h l e p =
    Works-bind (Keeps lx) Any (validate_literal_int base start (start + n) lx) _
      (validate_literal_int-Works base start n lx h p)
      (λ r k.
        let inside : Inside r.1 start (start + n) = Inside-Keeps lx r.1 start (start + n) k h in
        let suffix : Inside r.1 (start + n) r.1.pos =
          subst (λ (l : Lexer). Inside l (start + n) l.pos) (sym k)
            (h.0, omega (arith, h.1), l, e) in
        Works-bind Any Any (checked_symbol r.0 r.1 start (start + n)) _
          (checked_symbol-Works r.0 r.1 start (start + n) inside)
          (λ _ _.
            Works-bind Any Any (int_suffix start (start + n) r.1) _
              (int_suffix-Works start (start + n) r.1 suffix) (λ _ _. tt)))

lex_float-Works :
    (base : Base) (empty : Bool) (start n : ℕ) (lx : Lexer)
    → Inside lx start (start + n)
    → Works Any (lex_float base empty start (start + n) lx)
unfolding lex_float
lex_float-Works base empty start n lx h =
    let r = validate_literal_float base start empty lx in
    Works-bind Any Any (checked_symbol r.0 r.1 start (start + n)) _
      (checked_symbol-Works r.0 r.1 start (start + n) (
        Inside-Keeps lx r.1 start (start + n) (validate_literal_float-Keeps base start empty lx) h))
      (λ _ _. tt)

pub lex_literal-Works :
    (character : Text → Option ℕ)
    → ((s : Text) → IfSome IsScalar (character s))
    → (start n x : ℕ) (kind : LiteralKind) (lx : Lexer) → Inside lx start lx.pos
    → char_from lx start ≡ returned x
    → IsAscii x
    → Fits x (lx.pos - start) (TokenKind.literal kind n)
    → Works (Keeps lx) (lex_literal character start (start + n) kind lx)
unfolding lex_literal Fits
lex_literal-Works character names start n x kind lx h e i fits =
    Works-imp _ (Keeps lx) (lex_literal character start (start + n) kind lx) (λ r p. p.0)
      (Works-both (Keeps lx) Any (lex_literal character start (start + n) kind lx)
        (lex_literal-Gives character start (start + n) kind lx) (kinds kind fits))
  where
    inside : n ≤ lx.pos - start → Inside lx start (start + n)
    inside l = (h.0, h.1, omega arith, omega (arith, h.2, h.3, l))

    kinds :
        (kind : LiteralKind)
        → Fits x (lx.pos - start) (TokenKind.literal kind n)
        → Works Any (lex_literal character start (start + n) kind lx)
    kinds (LiteralKind.str_literal terminated triple) f =
        lex_string-Works character names start n x terminated triple lx (inside f.1) e i f.0
    kinds (LiteralKind.int_literal base empty) f =
        lex_int-Works base empty start n lx (inside f.1) (omega (arith, f.1, h.2)) h.3 f.0
    kinds (LiteralKind.float_literal base empty) f =
        lex_float-Works base empty start n lx (inside f.1)
    kinds (LiteralKind.bool_literal b) f =
        Works-bind Ascii Any (str_from_to lx start (start + n)) _
          (str_from_to-Works lx start (start + n) (inside f.1)) (λ _ _. tt)
