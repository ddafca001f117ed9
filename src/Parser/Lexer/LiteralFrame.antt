-- ===== src/Parser/Lexer/LiteralFrame.antt =====
-- Literals change nothing of the lexer but its errors, and are read in a bounded number of turns.
use kclvm.Prelude.{
  ℕ, ◌+◌, ◌≡◌, refl, ap, ◌∙◌, Bool, true, false, not, ◌||◌, Option, none, some, Text, codes, ltb,
  ◌==◌, if◌then◌else◌,
}
use kclvm.Lexer.Kind.{Base, LiteralKind}
use kclvm.Lexer.Eats.{if_lem}
use kclvm.Parser.Token.{is_suffix_name}
use kclvm.Parser.Lexer.Run.{Gives, Gives-bind, Gives-or_panic}
use kclvm.Parser.Lexer.State.{Lexer, span_error, char_from, str_from, str_from_to}
use kclvm.Parser.Lexer.Strings.{str_content_eval}
use kclvm.Parser.Lexer.StringsEnd.{str_content_eval-Gives}
use kclvm.Parser.Lexer.Literal.{
  sub_pos, radix, bad_digit, report_digit, validate_in, validate_literal_int,
  validate_literal_float, quote_of, quote_offset, value_or_error, content_end_of, string_value,
  lex_string, checked_symbol, int_suffix, lex_int, lex_float, lex_literal,
}

abbrev pub OnlyErrors : Lexer → Lexer → Type 0
OnlyErrors lx lx' = lx' ≡ record lx { errors = lx'.errors }

pub OnlyErrors-trans : (a b c : Lexer) → OnlyErrors a b → OnlyErrors b c → OnlyErrors a c
OnlyErrors-trans a b c h k = k ∙ ap (λ (l : Lexer). record l { errors = c.errors }) h

pub span_error-OnlyErrors :
    (msg : Text) (lo hi : ℕ) (lx : Lexer) → OnlyErrors lx (span_error msg lo hi lx)
unfolding span_error
span_error-OnlyErrors msg lo hi lx = refl

-- A run that returns.
abbrev pub Any {ℓ} : {A : Type ℓ} → A → Type 0
Any a = Unit

pub str_from_to-Gives : (lx : Lexer) (a b : ℕ) → Gives Any (str_from_to lx a b)
unfolding str_from_to
str_from_to-Gives lx a b = Gives-or_panic Any _ (λ s e. tt)

char_from-Gives : (lx : Lexer) (a : ℕ) → Gives Any (char_from lx a)
unfolding char_from
char_from-Gives lx a = Gives-or_panic Any _ (λ s e. tt)

sub_pos-Gives : (a b : ℕ) → Gives Any (sub_pos a b)
unfolding sub_pos
sub_pos-Gives a b = if_lem (Gives Any) (ltb a b) tt tt

quote_of-Gives : (lx : Lexer) (start c : ℕ) → Gives Any (quote_of lx start c)
quote_of-Gives lx start c =
    if_lem (Gives Any) (c == b'r' || c == b'R')
      (Gives-bind Any Any (char_from lx (start + 1)) _ (char_from-Gives lx (start + 1)) (λ q t. tt))
      tt

-- The lexer that goes with what is returned has other errors only.
abbrev pub Keeps {ℓ} : {A : Type ℓ} → Lexer → A × Lexer → Type 0
Keeps lx r = OnlyErrors lx r.1

module _ (character : Text → Option ℕ) where
  value_or_error-Keeps :
      (content_start : ℕ) (lx : Lexer) (v : Option Text)
      → Keeps lx (value_or_error content_start lx v)
  value_or_error-Keeps content_start lx (some v) = refl
  value_or_error-Keeps content_start lx none = span_error-OnlyErrors _ content_start lx.pos lx

  pub string_value-Gives :
      (q : ℕ) (triple is_raw : Bool) (a b : ℕ) (lx : Lexer)
      → Gives (Keeps lx) (string_value character q triple is_raw a b lx)
  unfolding string_value
  string_value-Gives q triple is_raw a b lx =
      if_lem (Gives (Keeps lx)) (ltb b a) (span_error-OnlyErrors _ a lx.pos lx) (
        Gives-bind Any (Keeps lx) (str_from_to lx a b) _ (str_from_to-Gives lx a b) (λ content t.
          Gives-bind Any (Keeps lx) (str_content_eval character q triple false is_raw content) _
            (str_content_eval-Gives character q triple false is_raw content)
            (λ v u. value_or_error-Keeps a lx v)))

  lex_string-Gives :
      (start suffix_start : ℕ) (terminated triple : Bool) (lx : Lexer)
      → Gives (Keeps lx) (lex_string character start suffix_start terminated triple lx)
  unfolding lex_string
  lex_string-Gives start suffix_start terminated triple lx =
      Gives-bind Any (Keeps lx) (char_from lx start) _ (char_from-Gives lx start) (λ c t.
        Gives-bind Any (Keeps lx) (quote_of lx start c) _ (quote_of-Gives lx start c) (λ q u.
          let lx1 =
            if not terminated then span_error (codes "unterminated string") q.1 lx.pos lx else lx in
          let offset = quote_offset triple q.0 in
          let unterminated : OnlyErrors lx lx1 =
            if_lem (OnlyErrors lx) (not terminated) (span_error-OnlyErrors _ q.1 lx.pos lx) refl in
          Gives-bind Any (Keeps lx) (sub_pos suffix_start offset) _
            (sub_pos-Gives suffix_start offset)
            (λ end v.
              Gives-bind (Keeps lx1) (Keeps lx)
                (string_value character q.2 triple q.0 (start + offset)
                  (content_end_of terminated triple q.0 end) lx1)
                _
                (string_value-Gives q.2 triple q.0 (start + offset)
                  (content_end_of terminated triple q.0 end) lx1)
                (λ r k.
                  Gives-bind Any (Keeps lx) (str_from_to r.1 start suffix_start) _
                    (str_from_to-Gives r.1 start suffix_start)
                    (λ raw w. OnlyErrors-trans lx lx1 r.1 unterminated k)))))

report_digit-Keeps :
    (base start : ℕ) (o : Option (ℕ × ℕ)) (lx : Lexer) → Keeps lx (report_digit base start o lx)
report_digit-Keeps base start none lx = refl
report_digit-Keeps base start (some p) lx = span_error-OnlyErrors _ (start + (2 + p.0)) lx.pos lx

validate_in-Gives : (o : Option ℕ) (a b : ℕ) (lx : Lexer) → Gives (Keeps lx) (validate_in o a b lx)
validate_in-Gives none a b lx = refl
validate_in-Gives (some base) a b lx =
    Gives-bind Any (Keeps lx) (str_from_to lx (a + 2) b) _ (str_from_to-Gives lx (a + 2) b)
      (λ s t. report_digit-Keeps base a (bad_digit base 0 s) lx)

pub validate_literal_int-Gives :
    (base : Base) (a b : ℕ) (lx : Lexer) → Gives (Keeps lx) (validate_literal_int base a b lx)
unfolding validate_literal_int
validate_literal_int-Gives base a b lx = validate_in-Gives (radix base) a b lx

pub validate_literal_float-Keeps :
    (base : Base) (start : ℕ) (empty : Bool) (lx : Lexer)
    → Keeps lx (validate_literal_float base start empty lx)
unfolding validate_literal_float
validate_literal_float-Keeps base start true lx = span_error-OnlyErrors _ start lx.pos lx
validate_literal_float-Keeps Base.decimal start false lx = refl
validate_literal_float-Keeps Base.binary start false lx = span_error-OnlyErrors _ start lx.pos lx
validate_literal_float-Keeps Base.octal start false lx = span_error-OnlyErrors _ start lx.pos lx
validate_literal_float-Keeps Base.hexadecimal start false lx =
    span_error-OnlyErrors _ start lx.pos lx

checked_symbol-Gives : (ok : Bool) (lx : Lexer) (a b : ℕ) → Gives Any (checked_symbol ok lx a b)
checked_symbol-Gives ok lx a b = if_lem (Gives Any) ok (str_from_to-Gives lx a b) tt

int_suffix-Gives :
    (start suffix_start : ℕ) (lx : Lexer) → Gives (Keeps lx) (int_suffix start suffix_start lx)
unfolding int_suffix str_from
int_suffix-Gives start suffix_start lx =
    if_lem (Gives (Keeps lx)) (ltb suffix_start lx.pos)
      (Gives-bind Any (Keeps lx) (str_from_to lx suffix_start lx.pos) _
        (str_from_to-Gives lx suffix_start lx.pos)
        (λ s t.
          if_lem (Gives (Keeps lx)) (not (is_suffix_name s))
            (span_error-OnlyErrors _ start lx.pos lx) refl))
      refl

lex_int-Gives :
    (base : Base) (empty : Bool) (start suffix_start : ℕ) (lx : Lexer)
    → Gives (Keeps lx) (lex_int base empty start suffix_start lx)
unfolding lex_int
lex_int-Gives base true start suffix_start lx = span_error-OnlyErrors _ start lx.pos lx
lex_int-Gives base false start suffix_start lx =
    Gives-bind (Keeps lx) (Keeps lx) (validate_literal_int base start suffix_start lx) _
      (validate_literal_int-Gives base start suffix_start lx)
      (λ r k.
        Gives-bind Any (Keeps lx) (checked_symbol r.0 r.1 start suffix_start) _
          (checked_symbol-Gives r.0 r.1 start suffix_start)
          (λ symbol t.
            Gives-bind (Keeps r.1) (Keeps lx) (int_suffix start suffix_start r.1) _
              (int_suffix-Gives start suffix_start r.1) (λ q l. OnlyErrors-trans lx r.1 q.1 k l)))

lex_float-Gives :
    (base : Base) (empty : Bool) (start suffix_start : ℕ) (lx : Lexer)
    → Gives (Keeps lx) (lex_float base empty start suffix_start lx)
unfolding lex_float
lex_float-Gives base empty start suffix_start lx =
    let r = validate_literal_float base start empty lx in
    Gives-bind Any (Keeps lx) (checked_symbol r.0 r.1 start suffix_start) _
      (checked_symbol-Gives r.0 r.1 start suffix_start)
      (λ symbol t. validate_literal_float-Keeps base start empty lx)

pub lex_literal-Gives :
    (character : Text → Option ℕ) (start suffix_start : ℕ) (kind : LiteralKind) (lx : Lexer)
    → Gives (Keeps lx) (lex_literal character start suffix_start kind lx)
unfolding lex_literal
lex_literal-Gives character start suffix_start (LiteralKind.str_literal terminated triple) lx =
    lex_string-Gives character start suffix_start terminated triple lx
lex_literal-Gives character start suffix_start (LiteralKind.int_literal base empty) lx =
    lex_int-Gives base empty start suffix_start lx
lex_literal-Gives character start suffix_start (LiteralKind.float_literal base empty) lx =
    lex_float-Gives base empty start suffix_start lx
lex_literal-Gives character start suffix_start (LiteralKind.bool_literal b) lx =
    Gives-bind Any (Keeps lx) (str_from_to lx start suffix_start) _
      (str_from_to-Gives lx start suffix_start) (λ s t. refl)
