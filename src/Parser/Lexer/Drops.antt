-- ===== src/Parser/Lexer/Drops.antt =====
-- Dropping bytes twice, and what that leaves.
use kclvm.Prelude.{
  ℕ, zero, suc, ◌+◌, ◌-◌, ◌≤◌, ◌<◌, ◌≡◌, refl, ap, sym, ◌∙◌, inl, inr, [], ◌∷◌, ◌++◌, some, Text,
  arith, length, Option-cases,
}
use kclvm.Lexer.Cursor.{len_utf8, str_len}
use kclvm.Parser.Lexer.State.{drop_bytes, take_bytes, slice}
use kclvm.Parser.Lexer.Slices.{drop_bytes-suc, take_bytes-append}

-- The first bytes end no later than the character that they start in, or nothing is left.
pub drop_bytes-cons :
    (m c : ℕ) (s t : Text)
    → drop_bytes (suc m) (c ∷ s) ≡ some t
    → (len_utf8 c ≤ suc m) × (drop_bytes (suc m - len_utf8 c) s ≡ some t)
unfolding drop_bytes
drop_bytes-cons m c s t e = ground (arith, e)

pub drop_bytes-add :
    (p k : ℕ) (s t : Text) → drop_bytes p s ≡ some t → drop_bytes (p + k) s ≡ drop_bytes k t
unfolding drop_bytes
drop_bytes-add zero k s t e =
    let same : s ≡ t = cc in ap (λ n. drop_bytes n s) {y = k} (omega arith) ∙ ap (drop_bytes k) same
drop_bytes-add (suc p) k [] t e = cc
drop_bytes-add (suc p) k (c ∷ s) t e =
    let (h, r) = drop_bytes-cons p c s t e in
    ap (λ n. drop_bytes n (c ∷ s)) {y = suc (p + k)} (omega arith)
    ∙ drop_bytes-suc (p + k) c s (omega (arith, h))
    ∙ ap (λ n. drop_bytes n s) {y = suc p - len_utf8 c + k} (omega (arith, h))
    ∙ drop_bytes-add (suc p - len_utf8 c) k s t r

pub drop_bytes-length_le : (k : ℕ) (s t : Text) → drop_bytes k s ≡ some t → length t ≤ length s
unfolding drop_bytes
drop_bytes-length_le zero s t e = (let same : s ≡ t = cc in omega (arith, ap length same))
drop_bytes-length_le (suc k) [] t e = cc
drop_bytes-length_le (suc k) (c ∷ s) t e =
    let (h, r) = drop_bytes-cons k c s t e in
    omega (arith, drop_bytes-length_le (suc k - len_utf8 c) s t r)

pub drop_bytes-length_lt :
    (k : ℕ) (s t : Text) → 1 ≤ k → drop_bytes k s ≡ some t → length t < length s
unfolding drop_bytes
drop_bytes-length_lt zero s t l e = absurd (omega (arith, l))
drop_bytes-length_lt (suc k) [] t l e = cc
drop_bytes-length_lt (suc k) (c ∷ s) t l e =
    let (h, r) = drop_bytes-cons k c s t e in
    omega (arith, drop_bytes-length_le (suc k - len_utf8 c) s t r)

drop_bytes-str_len : (p : ℕ) (s u : Text) → drop_bytes p s ≡ some u → str_len s ≡ p + str_len u
unfolding drop_bytes str_len
drop_bytes-str_len zero s u e = let same : s ≡ u = cc in omega (arith, ap str_len same)
drop_bytes-str_len (suc p) [] u e = cc
drop_bytes-str_len (suc p) (c ∷ s) u e =
    let (h, r) = drop_bytes-cons p c s u e in
    omega (arith, h, drop_bytes-str_len (suc p - len_utf8 c) s u r)

append_nil : (s : Text) → s ++ [] ≡ s
append_nil [] = refl
append_nil (c ∷ s) = ap (λ t. c ∷ t) (append_nil s)

take_bytes-all : (s : Text) → take_bytes (str_len s) s ≡ some s
take_bytes-all s = ap (take_bytes (str_len s)) (sym (append_nil s)) ∙ take_bytes-append s []

-- A slice up to the end is what is left.
pub slice-drop_bytes :
    (s : Text) (p : ℕ) (t : Text) → slice s p (str_len s) ≡ some t → drop_bytes p s ≡ some t
unfolding slice
slice-drop_bytes s p t e = elim (Option-cases (drop_bytes p s)) [
  | inl h ↦ absurd (ground (arith, e, h))
  | inr (u, h) ↦
      let n : (str_len s - p) ≡ str_len u = omega (arith, drop_bytes-str_len p s u h) in
      let k : take_bytes (str_len s - p) u ≡ some u =
        ap (λ m. take_bytes m u) n ∙ take_bytes-all u in
      let same : u ≡ t = ground (arith, e, h, k) in h ∙ ap some same
]
