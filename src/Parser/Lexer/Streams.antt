-- ===== src/Parser/Lexer/Streams.antt =====
-- The loop of `token`: it ends, and what it skips leaves the two checks where they were.
use kclvm.Prelude.{
  ℕ, zero, suc, ◌+◌, ◌-◌, ◌≤◌, ◌<◌, ◌≡◌, ◌⊎◌, inl, inr, refl, ap, sym, subst, ◌∙◌, Bool, true,
  false, not, ◌&&◌, [], ◌∷◌, Option, none, some, Text, arith, length, if◌then◌else◌,
}
use kclvm.Lexer.Cursor.{len_utf8, str_len, no_chars}
use kclvm.Parser.Token.{TokenKind}
use kclvm.Parser.Lexer.Run.{
  returned, or_panic, Gives, Gives-bind, Gives-or_panic, Gives-imp, match_option,
}
use kclvm.Parser.Lexer.State.{Lexer, drop_bytes, slice, src_index}
use kclvm.Parser.Lexer.Indent.{mark}
use kclvm.Parser.Lexer.Nesting.{bracket_step, indent_step, run_check}
use kclvm.Parser.Lexer.SymbolsFrame.{opened}
use kclvm.Parser.Lexer.IndentFrame.{Rooted, depth}
use kclvm.Parser.Lexer.Drops.{
  drop_bytes-cons, drop_bytes-add, drop_bytes-length_lt, slice-drop_bytes,
}
use kclvm.Parser.Lexer.Skips.{skipped}
use kclvm.Parser.Lexer.Turns.{MovesOn, kind_at, turn_at-MovesOn}
use kclvm.Parser.Lexer.Loop.{
  TokenWithIndents, appended, is_eof_token, Turn, turn_at, turn, token_loop,
}

-- The fuel is more than the characters that are left.
abbrev pub Room : ℕ → Lexer → Type 0
Room f lx =
    (1 ≤ f)
    × (lx.start_pos ≤ lx.pos)
    × ((t : Text) → drop_bytes (src_index lx lx.pos) lx.src ≡ some t → length t < f)

Room-mono : (f : ℕ) (lx : Lexer) → Room f lx → Room (suc f) lx
Room-mono f lx (a, b, c) = (omega arith, b, λ t e. omega (arith, c t e))

-- Where a turn moved on, one character less is left at least.
Room-moved :
    (f x : ℕ) (s : Text) (lx lx' : Lexer)
    → Room (suc f) lx
    → drop_bytes (src_index lx lx.pos) lx.src ≡ some (x ∷ s)
    → lx'.src ≡ lx.src
    → lx'.start_pos ≡ lx.start_pos
    → lx.pos < lx'.pos
    → Room f lx'
unfolding src_index
Room-moved f x s lx lx' (a, b, c) e src start moved =
    let left : suc (length s) < suc f = c (x ∷ s) e in
    (
      omega (arith, left),
      omega (arith, b, start, moved),
      λ t d.
          let k : ℕ = lx'.pos - lx.pos in
          let p : (lx'.pos - lx'.start_pos) ≡ lx.pos - lx.start_pos + k =
            omega (arith, b, start, moved) in
          let same : drop_bytes (lx'.pos - lx'.start_pos) lx'.src
              ≡ drop_bytes (lx.pos - lx.start_pos + k) lx.src =
            ap (drop_bytes (lx'.pos - lx'.start_pos)) src ∙ ap (λ n. drop_bytes n lx.src) p in
          let rest : drop_bytes k (x ∷ s) ≡ some t =
            sym (drop_bytes-add (lx.pos - lx.start_pos) k lx.src (x ∷ s) e) ∙ sym same ∙ d in
          let l : length t < suc (length s) =
            drop_bytes-length_lt k (x ∷ s) t (omega (arith, moved)) rest in
          omega (arith, l, left),
    )

module _ (is_id_start is_id_continue is_emoji : ℕ → Bool) where
  -- No token that starts at a place of the text is one that is skipped.
  unfoldable pub clean : Text → Bool
  clean [] = true
  clean (c ∷ s) = not (skipped (kind_at is_id_start is_id_continue is_emoji (c ∷ s))) && clean s

  abbrev pub Clean : Text → Type 0
  Clean src = clean src ≡ true

  Clean-head :
      (c : ℕ) (s : Text)
      → Clean (c ∷ s)
      → skipped (kind_at is_id_start is_id_continue is_emoji (c ∷ s)) ≡ false
  unfolding clean
  Clean-head c s h = ground (arith, h)

  Clean-tail : (c : ℕ) (s : Text) → Clean (c ∷ s) → Clean s
  unfolding clean
  Clean-tail c s h = ground (arith, h)

  -- What is left of such a text starts with no such token.
  Clean-drop_bytes :
      (p : ℕ) (src : Text) (x : ℕ) (s : Text)
      → Clean src
      → drop_bytes p src ≡ some (x ∷ s)
      → skipped (kind_at is_id_start is_id_continue is_emoji (x ∷ s)) ≡ false
  unfolding drop_bytes
  Clean-drop_bytes zero src x s h e =
      let same : src ≡ x ∷ s = cc in Clean-head x s (subst Clean same h)
  Clean-drop_bytes (suc p) [] x s h e = cc
  Clean-drop_bytes (suc p) (c ∷ src) x s h e =
      Clean-drop_bytes (suc p - len_utf8 c) src x s (Clean-tail c src h)
        (drop_bytes-cons p c src (x ∷ s) e).1

module _ (is_id_start is_id_continue is_emoji : ℕ → Bool) (character : Text → Option ℕ) where
  abbrev pub Turns : Lexer → Turn → Type 0
  Turns lx r =
      (r ≡ (some (TokenWithIndents.token (mark TokenKind.eof lx)), lx))
      ⊎ ((x : ℕ) × (s : Text) × (drop_bytes (src_index lx lx.pos) lx.src ≡ some (x ∷ s))
          × MovesOn (kind_at is_id_start is_id_continue is_emoji (x ∷ s)) lx r)

  turn_text-Turns :
      (text : Text) (lx : Lexer)
      → Rooted lx.indents
      → drop_bytes (src_index lx lx.pos) lx.src ≡ some text
      → Gives (Turns lx) (
          if no_chars text
          then returned (some (TokenWithIndents.token (mark TokenKind.eof lx)), lx)
          else turn_at is_id_start is_id_continue is_emoji character text lx)
  turn_text-Turns [] lx root e = inl refl
  turn_text-Turns (x ∷ s) lx root e =
      Gives-imp (MovesOn (kind_at is_id_start is_id_continue is_emoji (x ∷ s)) lx) (Turns lx)
        (turn_at is_id_start is_id_continue is_emoji character (x ∷ s) lx) (λ r m. inr (x, s, e, m))
        (turn_at-MovesOn is_id_start is_id_continue is_emoji character x s lx root)

  pub turn-Turns :
      (lx : Lexer)
      → Rooted lx.indents
      → Gives (Turns lx) (turn is_id_start is_id_continue is_emoji character lx)
  unfolding turn
  turn-Turns lx root =
      Gives-bind (λ text. drop_bytes (src_index lx lx.pos) lx.src ≡ some text) (Turns lx)
        (or_panic (slice lx.src (src_index lx lx.pos) (str_len lx.src))) _
        (Gives-or_panic (λ text. drop_bytes (src_index lx lx.pos) lx.src ≡ some text)
          (slice lx.src (src_index lx lx.pos) (str_len lx.src))
          (λ text e. slice-drop_bytes lx.src (src_index lx lx.pos) text e))
        (λ text e. turn_text-Turns text lx root e)

  -- What the loop of `token` returns: the end, or a token that passes the checks.
  abbrev pub Gets : ℕ → Lexer → TokenWithIndents × Lexer → Type 0
  Gets f lx (t, lx') =
      Rooted lx'.indents
      × (lx'.src ≡ lx.src)
      × (((is_eof_token t ≡ true)
            × (opened lx'.delims ≡ opened lx.delims)
            × (Clean is_id_start is_id_continue is_emoji lx.src
                → depth lx'.indents ≡ depth lx.indents))
          ⊎ ((is_eof_token t ≡ false)
              × Room f lx'
              × (run_check bracket_step (opened lx.delims) (appended t) ≡ some (opened lx'.delims))
              × (Clean is_id_start is_id_continue is_emoji lx.src
                  → run_check indent_step (depth lx.indents) (appended t)
                    ≡ some (depth lx'.indents))))

  Gets-mono : (f : ℕ) (lx : Lexer) (r : TokenWithIndents × Lexer) → Gets f lx r → Gets (suc f) lx r
  Gets-mono f lx (t, lx') (root, src, inl e) = (root, src, inl e)
  Gets-mono f lx (t, lx') (root, src, inr (e, room, b, i)) =
      (root, src, inr (e, Room-mono f lx' room, b, i))

  -- What is got after a turn that found nothing.
  Gets-after :
      (f : ℕ) (lx lx1 : Lexer) (r : TokenWithIndents × Lexer)
      → lx1.src ≡ lx.src
      → opened lx1.delims ≡ opened lx.delims
      → (Clean is_id_start is_id_continue is_emoji lx.src → depth lx1.indents ≡ depth lx.indents)
      → Gets f lx1 r
      → Gets f lx r
  Gets-after f lx lx1 (t, lx') s d h (root, src, inl (e, b, i)) = (
    root,
    src ∙ s,
    inl (e, b ∙ d, λ c. i (subst (Clean is_id_start is_id_continue is_emoji) (sym s) c) ∙ h c),
  )
  Gets-after f lx lx1 (t, lx') s d h (root, src, inr (e, room, b, i)) = (
    root,
    src ∙ s,
    inr (
      e,
      room,
      ap (λ ds. run_check bracket_step ds (appended t)) (sym d) ∙ b,
      λ c.
          ap (λ n. run_check indent_step n (appended t)) (sym (h c))
          ∙ i (subst (Clean is_id_start is_id_continue is_emoji) (sym s) c),
    ),
  )

  loop_step-Gets :
      (f : ℕ) (lx : Lexer) (r : Turn)
      → Room (suc f) lx
      → Rooted lx.indents
      → Turns lx r
      → ((lx1 : Lexer)
          → Room f lx1
          → Rooted lx1.indents
          → Gives (Gets f lx1) (token_loop is_id_start is_id_continue is_emoji character f lx1))
      → Gives (Gets f lx) (
          match_option r.0
            (token_loop is_id_start is_id_continue is_emoji character f r.1)
            (λ t. returned (t, r.1)))
  unfolding is_eof_token
  loop_step-Gets f lx (none, lx') room root (inl e) ih = absurd (
      let clash : none ≡ some (TokenWithIndents.token (mark TokenKind.eof lx)) =
        ap (λ (r : Turn). r.0) e in
      cc)
  loop_step-Gets f lx (some t, lx') room root (inl e) ih =
      let same : some t ≡ some (TokenWithIndents.token (mark TokenKind.eof lx)) =
        ap (λ (r : Turn). r.0) e in
      let at_end : t ≡ TokenWithIndents.token (mark TokenKind.eof lx) = cc in
      let lx_same : lx' ≡ lx = ap (λ (r : Turn). r.1) e in
      (
        subst (λ (l : Lexer). Rooted l.indents) (sym lx_same) root,
        ap (λ (l : Lexer). l.src) lx_same,
        inl (
          ap is_eof_token at_end,
          ap (λ (l : Lexer). opened l.delims) lx_same,
          λ c. ap (λ (l : Lexer). depth l.indents) lx_same,
        ),
      )
  loop_step-Gets f lx (some t, lx') room root (inr (x, s, e, m)) ih =
      (m.2, m.0, inr (m.4.2, Room-moved f x s lx lx' room e m.0 m.1 m.3, m.4.0, λ c. m.4.1))
  loop_step-Gets f lx (none, lx') room root (inr (x, s, e, m)) ih =
      Gives-imp (Gets f lx') (Gets f lx)
        (token_loop is_id_start is_id_continue is_emoji character f lx')
        (λ r. Gets-after f lx lx' r m.0 m.4.0 (λ c. ap depth (
          m.4.1 (
            Clean-drop_bytes is_id_start is_id_continue is_emoji (src_index lx lx.pos) lx.src x s c
              e))))
        (ih lx' (Room-moved f x s lx lx' room e m.0 m.1 m.3) m.2)

  pub token_loop-Gets :
      (f : ℕ) (lx : Lexer)
      → Room (suc f) lx
      → Rooted lx.indents
      → Gives (Gets f lx) (token_loop is_id_start is_id_continue is_emoji character (suc f) lx)
  unfolding token_loop
  token_loop-Gets zero lx room root =
      Gives-bind (Turns lx) (Gets zero lx) (turn is_id_start is_id_continue is_emoji character lx) _
        (turn-Turns lx root)
        (λ r h. loop_step-Gets zero lx r room root h (λ lx1 k l. absurd (omega (arith, k.0))))
  token_loop-Gets (suc f) lx room root =
      Gives-bind (Turns lx) (Gets (suc f) lx)
        (turn is_id_start is_id_continue is_emoji character lx) _ (turn-Turns lx root)
        (λ r h. loop_step-Gets (suc f) lx r room root h (λ lx1 k l.
          Gives-imp (Gets f lx1) (Gets (suc f) lx1) _ (Gets-mono f lx1)
            (token_loop-Gets f lx1 k l)))
