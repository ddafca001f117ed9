-- ===== src/Parser/Lexer/Slices.antt =====
-- Slices of a text between the ends of its parts.
use kclvm.Prelude.{ℕ, suc, ◌+◌, ◌-◌, ◌≤◌, ◌≡◌, refl, ap, ◌∙◌, [], ◌∷◌, ◌++◌, some, Text, arith}
use kclvm.Lexer.Cursor.{len_utf8, str_len}
use kclvm.Parser.Lexer.State.{drop_bytes, take_bytes, slice}

len_utf8_pos : (c : ℕ) → 1 ≤ len_utf8 c
unfolding len_utf8
len_utf8_pos c = ground arith

pub drop_bytes-suc :
    (m c : ℕ) (s : Text)
    → len_utf8 c ≤ suc m
    → drop_bytes (suc m) (c ∷ s) ≡ drop_bytes (suc m - len_utf8 c) s
unfolding drop_bytes
drop_bytes-suc m c s h = ground (arith, h)

drop_bytes-step : (n c : ℕ) (s : Text) → drop_bytes (len_utf8 c + n) (c ∷ s) ≡ drop_bytes n s
drop_bytes-step n c s =
    ap (λ k. drop_bytes k (c ∷ s)) (omega (arith, len_utf8_pos c))
    ∙ drop_bytes-suc (len_utf8 c + n - 1) c s (omega (arith, len_utf8_pos c))
    ∙ ap (λ k. drop_bytes k s) (omega (arith, len_utf8_pos c))

pub drop_bytes-append : (a b : Text) → drop_bytes (str_len a) (a ++ b) ≡ some b
unfolding drop_bytes str_len
drop_bytes-append [] b = refl
drop_bytes-append (c ∷ a) b = drop_bytes-step (str_len a) c (a ++ b) ∙ drop_bytes-append a b

pub take_bytes-suc :
    (m c : ℕ) (s t : Text)
    → len_utf8 c ≤ suc m
    → take_bytes (suc m - len_utf8 c) s ≡ some t
    → take_bytes (suc m) (c ∷ s) ≡ some (c ∷ t)
unfolding take_bytes
take_bytes-suc m c s t h e = rw e (ground (arith, h))

take_bytes-step :
    (n c : ℕ) (s t : Text)
    → take_bytes n s ≡ some t
    → take_bytes (len_utf8 c + n) (c ∷ s) ≡ some (c ∷ t)
take_bytes-step n c s t e =
    ap (λ k. take_bytes k (c ∷ s)) (omega (arith, len_utf8_pos c))
    ∙ take_bytes-suc (len_utf8 c + n - 1) c s t (omega (arith, len_utf8_pos c))
        (ap (λ k. take_bytes k s) (omega (arith, len_utf8_pos c)) ∙ e)

pub take_bytes-append : (a b : Text) → take_bytes (str_len a) (a ++ b) ≡ some a
unfolding take_bytes str_len
take_bytes-append [] b = refl
take_bytes-append (c ∷ a) b = take_bytes-step (str_len a) c (a ++ b) a (take_bytes-append a b)

pub slice-append :
    (a b c : Text) → slice (a ++ (b ++ c)) (str_len a) (str_len a + str_len b) ≡ some b
unfolding slice
slice-append a b c =
    let m : (str_len a + str_len b - str_len a) ≡ str_len b = omega arith in
    let t : take_bytes (str_len b) (b ++ c) ≡ some b = take_bytes-append b c in
    rw (drop_bytes-append a (b ++ c), m, t) (ground arith)
