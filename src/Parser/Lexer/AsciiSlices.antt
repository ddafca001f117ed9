-- ===== src/Parser/Lexer/AsciiSlices.antt =====
-- Slices of a text of ASCII characters, which do not panic between its ends.
use kclvm.Prelude.{
  ℕ, zero, suc, ◌+◌, ◌-◌, ◌≤◌, ◌<◌, ◌≡◌, refl, ap, sym, ◌∙◌, [], ◌∷◌, ◌++◌, some, Text, arith,
  get_elem?,
}
use kclvm.Prelude.Monad.{All}
use kclvm.Lexer.Cursor.{len_utf8, str_len}
use kclvm.Parser.Lexer.State.{drop_bytes, take_bytes, slice, encode_utf8, as_bytes}
use kclvm.Parser.Lexer.Slices.{drop_bytes-suc, take_bytes-suc}

abbrev pub IsAscii : ℕ → Type 0
IsAscii c = c < 128

abbrev pub Ascii : Text → Type 0
Ascii s = All IsAscii s

pub len_utf8-IsAscii : (c : ℕ) → IsAscii c → len_utf8 c ≡ 1
unfolding len_utf8
len_utf8-IsAscii c h = ground (arith, h)

pub drop_bytes-Ascii :
    (n : ℕ) (s : Text)
    → Ascii s
    → n ≤ str_len s
    → (u : Text) × (drop_bytes n s ≡ some u) × Ascii u × (str_len s ≡ n + str_len u)
unfolding drop_bytes str_len
drop_bytes-Ascii zero s h l = (s, refl, h, omega arith)
drop_bytes-Ascii (suc n) [] h l = absurd (omega (arith, l))
drop_bytes-Ascii (suc n) (c ∷ s) h l =
    let one : len_utf8 c ≡ 1 = len_utf8-IsAscii c h.0 in
    let (u, e, a, k) = drop_bytes-Ascii n s h.1 (omega (arith, l, one)) in
    (
      u,
      drop_bytes-suc n c s (omega (arith, one))
          ∙ ap (λ m. drop_bytes m s) {y = n} (omega (arith, one))
          ∙ e,
      a,
      omega (arith, k, one),
    )

take_bytes-Ascii :
    (n : ℕ) (s : Text) → Ascii s → n ≤ str_len s → (t : Text) × (take_bytes n s ≡ some t) × Ascii t
unfolding take_bytes str_len
take_bytes-Ascii zero s h l = ([], refl, tt)
take_bytes-Ascii (suc n) [] h l = absurd (omega (arith, l))
take_bytes-Ascii (suc n) (c ∷ s) h l =
    let one : len_utf8 c ≡ 1 = len_utf8-IsAscii c h.0 in
    let (t, e, a) = take_bytes-Ascii n s h.1 (omega (arith, l, one)) in
    (
      c ∷ t,
      take_bytes-suc n c s t (omega (arith, one))
          (ap (λ m. take_bytes m s) {y = n} (omega (arith, one)) ∙ e),
      (h.0, a),
    )

pub slice-Ascii :
    (s : Text) (lo hi : ℕ)
    → Ascii s
    → lo ≤ hi
    → hi ≤ str_len s
    → (t : Text) × (slice s lo hi ≡ some t) × Ascii t
unfolding slice
slice-Ascii s lo hi h l k =
    let (u, e, a, n) = drop_bytes-Ascii lo s h (omega (arith, l, k)) in
    let (t, f, b) = take_bytes-Ascii (hi - lo) u a (omega (arith, n, k)) in
    (t, rw e (ground (arith, l, f)), b)

-- The bytes of such a text are its characters.
as_bytes-Ascii : (s : Text) → Ascii s → as_bytes s ≡ s
unfolding as_bytes encode_utf8
as_bytes-Ascii [] h = refl
as_bytes-Ascii (c ∷ s) h =
    let byte : encode_utf8 c ≡ c ∷ [] = ground (arith, h.0) in
    ap (λ b. b ++ as_bytes s) byte ∙ ap (λ t. c ∷ t) (as_bytes-Ascii s h.1)

nth : (n : ℕ) (s : Text) → Ascii s → n < str_len s → (c : ℕ) × (get_elem? s n ≡ some c) × IsAscii c
unfolding str_len
nth n [] h l = absurd (omega (arith, l))
nth zero (c ∷ s) h l = (c, refl, h.0)
nth (suc n) (c ∷ s) h l = nth n s h.1 (omega (arith, l, len_utf8-IsAscii c h.0))

nth_first :
    (n : ℕ) (s : Text) (x : ℕ) (u : Text)
    → Ascii s
    → drop_bytes n s ≡ some (x ∷ u)
    → get_elem? s n ≡ some x
unfolding drop_bytes
nth_first zero s x u h e = let same : s ≡ x ∷ u = cc in ap (λ t. get_elem? t 0) same
nth_first (suc n) [] x u h e = cc
nth_first (suc n) (c ∷ s) x u h e =
    let one : len_utf8 c ≡ 1 = len_utf8-IsAscii c h.0 in
    let next : drop_bytes n s ≡ some (x ∷ u) =
      sym (
        drop_bytes-suc n c s (omega (arith, one))
        ∙ ap (λ m. drop_bytes m s) {y = n} (omega (arith, one)))
      ∙ e in
    nth_first n s x u h.1 next

pub byte-Ascii :
    (n : ℕ) (s : Text)
    → Ascii s
    → n < str_len s
    → (c : ℕ) × (get_elem? (as_bytes s) n ≡ some c) × IsAscii c
unfolding str_len
byte-Ascii n s h l =
    let (c, e, a) = nth n s h l in (c, ap (λ t. get_elem? t n) (as_bytes-Ascii s h) ∙ e, a)

-- The byte where a character starts is the character.
pub byte-first :
    (n : ℕ) (s : Text) (x : ℕ) (u : Text)
    → Ascii s
    → drop_bytes n s ≡ some (x ∷ u)
    → get_elem? (as_bytes s) n ≡ some x
byte-first n s x u h e = ap (λ t. get_elem? t n) (as_bytes-Ascii s h) ∙ nth_first n s x u h e
