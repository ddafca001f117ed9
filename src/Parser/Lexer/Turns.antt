-- ===== src/Parser/Lexer/Turns.antt =====
-- One turn of the loop: the lexer moves on, and the two checks of the tokens go with it.
use kclvm.Prelude.{
  ℕ, zero, suc, ◌+◌, ◌≤◌, ◌<◌, ◌≡◌, inl, inr, refl, ap, sym, subst, ◌∙◌, Bool, true, false, [], ◌∷◌,
  ◌++◌, Option, none, some, Text, arith, ◌>>=◌, Bool-cases,
}
use kclvm.Lexer.Kind
use kclvm.Lexer.Scan.{first_token}
use kclvm.Lexer.Pieces.{first_token-len}
use kclvm.Parser.Token.{Token, TokenKind}
use kclvm.Parser.Lexer.Run.{Gives, Gives-bind, Gives-both, Gives-imp}
use kclvm.Parser.Lexer.State.{Lexer}
use kclvm.Parser.Lexer.Indent.{IndentOrDedents, lex_indent_context}
use kclvm.Parser.Lexer.Nesting.{bracket_step, indent_step, run_check, run_check-append}
use kclvm.Parser.Lexer.SymbolsFrame.{opened, plain_kind, Makes, lex_token-Makes}
use kclvm.Parser.Lexer.IndentFrame.{Rooted, depth, leading_of, Leads, lex_indent_context-Gives}
use kclvm.Parser.Lexer.Symbols.{Made, lex_token}
use kclvm.Parser.Lexer.Skips.{
  skipped, blank, IsMade, lex_token-IsMade, SameIndents, lex_indent_context-blank,
}
use kclvm.Parser.Lexer.Loop.{
  appended, is_eof_kind, is_eof_token, Turn, finish, turn_at, with_leading,
}

-- What a turn finds passes the checks; a turn that finds nothing leaves the brackets, and the indents
-- where the token is not one that is skipped.
abbrev pub Found : Kind.TokenKind → Lexer → Turn → Type 0
Found kind lx (none, lx') =
    (opened lx'.delims ≡ opened lx.delims) × (skipped kind ≡ false → lx'.indents ≡ lx.indents)
Found kind lx (some t, lx') =
    (run_check bracket_step (opened lx.delims) (appended t) ≡ some (opened lx'.delims))
    × (run_check indent_step (depth lx.indents) (appended t) ≡ some (depth lx'.indents))
    × (is_eof_token t ≡ false)

abbrev pub MovesOn : Kind.TokenKind → Lexer → Turn → Type 0
MovesOn kind lx r =
    (r.1.src ≡ lx.src)
    × (r.1.start_pos ≡ lx.start_pos)
    × Rooted r.1.indents
    × (lx.pos < r.1.pos)
    × Found kind lx r

plain_kind-not_eof : (k : TokenKind) → plain_kind k ≡ true → is_eof_kind k ≡ false
unfolding plain_kind
plain_kind-not_eof TokenKind.eof e = cc
plain_kind-not_eof k e = refl

indent_step-plain : (n : ℕ) (k : TokenKind) → plain_kind k ≡ true → indent_step n k ≡ some n
unfolding plain_kind indent_step
indent_step-plain n TokenKind.indent e = cc
indent_step-plain zero TokenKind.dedent e = cc
indent_step-plain (suc n) TokenKind.dedent e = cc
indent_step-plain n k e = refl

appended-with_leading :
    (t : Token) (o : Option IndentOrDedents) → appended (with_leading t o) ≡ leading_of o ++ t ∷ []
unfolding appended
appended-with_leading t none = refl
appended-with_leading t (some (IndentOrDedents.indent u)) = refl
appended-with_leading t (some (IndentOrDedents.dedents ts)) = refl

run_check-one :
    {A : Type 0} (step : A → TokenKind → Option A) (a b : A) (t : Token)
    → step a t.kind ≡ some b
    → run_check step a (t ∷ []) ≡ some b
unfolding run_check
run_check-one step a b t e = ap (λ o. o >>= λ c. some c) e

-- The tokens before a token, and the token.
run_check-with_leading :
    {A : Type 0} (step : A → TokenKind → Option A) (a b c : A) (t : Token)
    (o : Option IndentOrDedents)
    → run_check step a (leading_of o) ≡ some b
    → step b t.kind ≡ some c
    → run_check step a (appended (with_leading t o)) ≡ some c
run_check-with_leading step a b c t o h k =
    ap (run_check step a) (appended-with_leading t o)
    ∙ run_check-append step a b (leading_of o) (t ∷ []) h
    ∙ run_check-one step b c t k

is_eof_token-with_leading :
    (t : Token) (o : Option IndentOrDedents) → is_eof_token (with_leading t o) ≡ is_eof_kind t.kind
unfolding is_eof_token
is_eof_token-with_leading t none = refl
is_eof_token-with_leading t (some i) = refl

-- Where nothing is made, the indents stay unless the token is one that is skipped.
abbrev Stays : Kind.TokenKind → Lexer → Made → Type 0
Stays kind lx (none, lx') = skipped kind ≡ false → lx'.indents ≡ lx.indents
Stays kind lx (some k, lx') = Unit

finish-MovesOn :
    (kind : Kind.TokenKind) (lx lx1 : Lexer) (o : Option IndentOrDedents) (len : ℕ) (m : Made)
    → Leads lx (o, lx1)
    → 1 ≤ len
    → Makes (record lx1 { pos = lx1.pos + len }) m
    → Stays kind lx m
    → MovesOn kind lx (finish o lx1.pos m)
finish-MovesOn kind lx lx1 o len (none, lx2) l h k stays = (
  k.0 ∙ l.0,
  k.1 ∙ l.1,
  subst Rooted (sym k.2) l.4,
  omega (arith, l.2, h, k.3),
  (k.4 ∙ ap opened l.3, stays),
)
finish-MovesOn kind lx lx1 o len (some made, lx2) l h k stays =
    let t : Token = record { kind = made; lo = lx1.pos; hi = lx2.pos } in
    (
      k.0 ∙ l.0,
      k.1 ∙ l.1,
      subst Rooted (sym k.2) l.4,
      omega (arith, l.2, h, k.3),
      (
        run_check-with_leading bracket_step (opened lx.delims) (opened lx.delims)
            (opened lx2.delims) t o (l.6 (opened lx.delims))
            (ap (λ ks. bracket_step (opened ks) made) (sym l.3) ∙ k.4.0),
        run_check-with_leading indent_step (depth lx.indents) (depth lx1.indents)
            (depth lx2.indents) t o l.5
            (indent_step-plain (depth lx1.indents) made k.4.1
              ∙ ap (λ is. some (depth is)) (sym k.2)),
        is_eof_token-with_leading t o ∙ plain_kind-not_eof made k.4.1,
      ),
    )

-- A blank leaves the indents before it and in it, and other tokens make something.
made-Stays : (kind : Kind.TokenKind) (lx : Lexer) (m : Made) → IsMade m → Stays kind lx m
made-Stays kind lx (some k, lx') h = tt
made-Stays kind lx (none, lx') h = absurd h

skipped-Stays :
    (kind : Kind.TokenKind) (lx : Lexer) (m : Made) → skipped kind ≡ true → Stays kind lx m
skipped-Stays kind lx (some k, lx') h = tt
skipped-Stays kind lx (none, lx') h = λ e. absurd (let clash : true ≡ false = sym h ∙ e in cc)

same-Stays :
    (kind : Kind.TokenKind) (lx : Lexer) (m : Made) → m.1.indents ≡ lx.indents → Stays kind lx m
same-Stays kind lx (some k, lx') h = tt
same-Stays kind lx (none, lx') h = λ e. h

Makes-indents : (lx : Lexer) (m : Made) → Makes lx m → m.1.indents ≡ lx.indents
Makes-indents lx (o, lx') k = k.2

abbrev BlankStays : Kind.TokenKind → Lexer → Option IndentOrDedents × Lexer → Type 0
BlankStays kind lx r = blank kind ≡ true → r.1.indents ≡ lx.indents

lex_indent_context-BlankStays :
    (kind : Kind.TokenKind) (lx : Lexer)
    → Rooted lx.indents
    → Gives (BlankStays kind lx) (lex_indent_context kind lx)
lex_indent_context-BlankStays kind lx root = elim (Bool-cases (blank kind)) [
  | inl b ↦
      Gives-imp (SameIndents lx) (BlankStays kind lx) (lex_indent_context kind lx) (λ r h e. h)
        (lex_indent_context-blank kind lx b)
  | inr b ↦
      Gives-imp (Leads lx) (BlankStays kind lx) (lex_indent_context kind lx)
        (λ r h e. absurd (let clash : true ≡ false = sym e ∙ b in cc))
        (lex_indent_context-Gives kind lx root)
]

module _ (is_id_start is_id_continue is_emoji : ℕ → Bool) where
  -- The kind of the token that a text starts with.
  abbrev pub kind_at : Text → Kind.TokenKind
  kind_at s = (first_token is_id_start is_id_continue is_emoji s).kind

module _ (is_id_start is_id_continue is_emoji : ℕ → Bool) (character : Text → Option ℕ) where
  lex_token-Stays :
      (kind : Kind.TokenKind) (start : ℕ) (lx lx0 : Lexer)
      → (blank kind ≡ true → lx0.indents ≡ lx.indents)
      → Gives (Stays kind lx) (lex_token character kind start lx0)
  lex_token-Stays kind start lx lx0 h = elim (Bool-cases (skipped kind)) [
    | inl s ↦
        Gives-imp (Makes lx0) (Stays kind lx) (lex_token character kind start lx0)
          (λ m k. skipped-Stays kind lx m s) (lex_token-Makes character kind start lx0)
    | inr s ↦ elim (Bool-cases (blank kind)) [
      | inl b ↦
          Gives-imp (Makes lx0) (Stays kind lx) (lex_token character kind start lx0)
            (λ m k. same-Stays kind lx m (Makes-indents lx0 m k ∙ h b))
            (lex_token-Makes character kind start lx0)
      | inr b ↦
          Gives-imp IsMade (Stays kind lx) (lex_token character kind start lx0) (made-Stays kind lx)
            (lex_token-IsMade character kind start lx0 s b)
    ]
  ]

  pub turn_at-MovesOn :
      (x : ℕ) (s : Text) (lx : Lexer)
      → Rooted lx.indents
      → Gives
          (MovesOn (kind_at is_id_start is_id_continue is_emoji (x ∷ s)) lx)
          (turn_at is_id_start is_id_continue is_emoji character (x ∷ s) lx)
  unfolding turn_at
  turn_at-MovesOn x s lx root =
      let next = first_token is_id_start is_id_continue is_emoji (x ∷ s) in
      let Q : Turn → Type 0 = MovesOn next.kind lx in
      Gives-bind (λ r. Leads lx r × BlankStays next.kind lx r) Q (lex_indent_context next.kind lx) _
        (Gives-both (Leads lx) (BlankStays next.kind lx) (lex_indent_context next.kind lx)
          (lex_indent_context-Gives next.kind lx root)
          (lex_indent_context-BlankStays next.kind lx root))
        (λ r l.
          let lx2 : Lexer = record r.1 { pos = r.1.pos + next.len } in
          Gives-bind (λ m. Makes lx2 m × Stays next.kind lx m) Q
            (lex_token character next.kind r.1.pos lx2) _
            (Gives-both (Makes lx2) (Stays next.kind lx) (lex_token character next.kind r.1.pos lx2)
              (lex_token-Makes character next.kind r.1.pos lx2)
              (lex_token-Stays next.kind r.1.pos lx lx2 l.1))
            (λ m k.
              finish-MovesOn next.kind lx r.1 r.0 next.len m l.0
                (first_token-len is_id_start is_id_continue is_emoji x s) k.0 k.1))
