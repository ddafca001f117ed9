-- ===== src/Ty/Unify/Total.antt =====
-- `subsume` on well-formed types: it neither panics nor runs out of fuel.
use kclvm.Prelude.{
  ℕ, zero, suc, ◌+◌, ◌≤◌, Bool, true, false, ◌≡◌, ◌≢◌, refl, Text, Option, some, none, Returns,
  all_m, any_m, and_then, or_else, arith,
}
use kclvm.Ty.Kind.{Ty, ty, Tys, nil, cons, TypeKind, F64, to_list}
use kclvm.Ty.Flags.{is_union, is_list, is_dict, is_schema, is_number_multiplier}
use kclvm.Ty.Unify.{
  subsume_fuel, subsume, literal_subsume, subsume_step, subsume_union_lhs, subsume_union_rhs,
  subsume_list, subsume_dict, subsume_schema, subsume_multiplier,
}
use kclvm.Ty.Unify.Size.{size-pos, size, size_list}
use kclvm.Ty.WellFormed.{IsWellFormed, TysAreWellFormed}
use kclvm.Ty.WellFormed.Cases.{
  union_types-Returns, list_item_ty-Returns, dict_entry_ty-Returns, into_schema_type-Returns,
  into_number_multiplier-Returns,
}

pub and_then-Returns : {a b : Option Bool} → Returns a → Returns b → Returns (and_then a b)
and_then-Returns {b = b} (true, e) (y, d) = (y, rw e d)
and_then-Returns (false, e) (y, d) = (false, rw e refl)

or_else-Returns : {a b : Option Bool} → Returns a → Returns b → Returns (or_else a b)
or_else-Returns (true, e) (y, d) = (true, rw e refl)
or_else-Returns (false, e) (y, d) = (y, rw e d)

-- A call that returns on each type of a list returns on the list.
all_m-Returns :
    (p : Ty → Option Bool) (n : ℕ) (ts : Tys)
    → ((t : Ty) → IsWellFormed t → size t ≤ n → Returns (p t))
    → TysAreWellFormed ts
    → size_list ts ≤ n
    → Returns (all_m p (to_list ts))
unfolding size
all_m-Returns p n nil h w m = (true, refl)
all_m-Returns p n (cons t ts) h w m =
    and_then-Returns (h t w.0 (omega arith)) (all_m-Returns p n ts h w.1 (omega arith))

any_m-Returns :
    (p : Ty → Option Bool) (n : ℕ) (ts : Tys)
    → ((t : Ty) → IsWellFormed t → size t ≤ n → Returns (p t))
    → TysAreWellFormed ts
    → size_list ts ≤ n
    → Returns (any_m p (to_list ts))
unfolding size
any_m-Returns p n nil h w m = (false, refl)
any_m-Returns p n (cons t ts) h w m =
    or_else-Returns (h t w.0 (omega arith)) (any_m-Returns p n ts h w.1 (omega arith))

ne-none→Returns : (o : Option Bool) → o ≢ none → Returns o
ne-none→Returns none h = absurd (h refl)
ne-none→Returns (some b) h = (b, refl)

Returns→ne-none : {o : Option Bool} → Returns o → o ≢ none
Returns→ne-none (b, e) h = cc

-- The body returns where its recursive calls do: all they are given is well formed and smaller.
module _ (literal : Ty → Ty → Bool) (rec : Ty → Ty → Bool → Option Bool) (n : ℕ)
    (ih : (l r : Ty) (c : Bool)
      → IsWellFormed l
      → IsWellFormed r
      → size l + size r ≤ n
      → Returns (rec l r c))
    (l r : Ty) (wl : IsWellFormed l) (wr : IsWellFormed r) (m : size l + size r ≤ suc n) where
  union_lhs-Returns : is_union l ≡ true → subsume_union_lhs rec l r ≢ none
  unfolding subsume_union_lhs
  union_lhs-Returns h =
      let (ts, e, ws, s) = union_types-Returns l wl h in
      rw e (
        Returns→ne-none (
          all_m-Returns (λ t. rec t r false) (size_list ts) ts
            (λ t w k. ih t r false w wr (omega arith)) ws (omega arith)))

  union_rhs-Returns : is_union r ≡ true → subsume_union_rhs rec l r ≢ none
  unfolding subsume_union_rhs
  union_rhs-Returns h =
      let (ts, e, ws, s) = union_types-Returns r wr h in
      rw e (
        Returns→ne-none (
          any_m-Returns (λ t. rec l t false) (size_list ts) ts
            (λ t w k. ih l t false wl w (omega arith)) ws (omega arith)))

  list-Returns : (c : Bool) → is_list l ≡ true → is_list r ≡ true → subsume_list rec l r c ≢ none
  unfolding subsume_list
  list-Returns c h k =
      let (a, e, wa, s) = list_item_ty-Returns l wl h in
      let (b, d, wb, t) = list_item_ty-Returns r wr k in
      rw (e, d) (Returns→ne-none (ih a b c wa wb (omega arith)))

  dict-Returns : (c : Bool) → is_dict l ≡ true → is_dict r ≡ true → subsume_dict rec l r c ≢ none
  unfolding subsume_dict
  dict-Returns c h k =
      let (a, x, e, wa, wx, s) = dict_entry_ty-Returns l wl h in
      let (b, y, d, wb, wy, t) = dict_entry_ty-Returns r wr k in
      rw (e, d)
        (Returns→ne-none
          (and_then-Returns (ih a b c wa wb (omega arith)) (ih x y c wx wy (omega arith))))

  multiplier-Returns :
      is_number_multiplier l ≡ true → is_number_multiplier r ≡ true → subsume_multiplier l r ≢ none
  unfolding subsume_multiplier
  multiplier-Returns h k =
      let (a, e) = into_number_multiplier-Returns l wl h in
      let (b, d) = into_number_multiplier-Returns r wr k in rw (e, d) (λ q. cc)

  schema-Returns : (q : Ty) → is_schema l ≡ true → subsume_schema l q ≢ none
  unfolding subsume_schema
  schema-Returns (ty (TypeKind.schema s) a f) h =
      let (t, e) = into_schema_type-Returns l wl h in rw e (λ q. cc)
  schema-Returns (ty _ a f) h = λ q. cc

  step-Returns : (c : Bool) → Returns (subsume_step literal rec l r c)
  unfolding subsume_step
  step-Returns c = ne-none→Returns _ (
      ground (
        arith,
        union_lhs-Returns,
        union_rhs-Returns,
        list-Returns c,
        dict-Returns c,
        multiplier-Returns,
        schema-Returns r,
      ))

module _ (show_f64 : F64 → Text) where
  subsume_fuel-Returns :
      (n : ℕ) (l r : Ty) (c : Bool)
      → IsWellFormed l
      → IsWellFormed r
      → size l + size r ≤ n
      → Returns (subsume_fuel show_f64 n l r c)
  unfolding subsume_fuel
  subsume_fuel-Returns zero l r c wl wr m = absurd (omega (arith, size-pos l))
  subsume_fuel-Returns (suc n) l r c wl wr m =
      step-Returns (literal_subsume show_f64) (subsume_fuel show_f64 n) n (subsume_fuel-Returns n) l
        r wl wr m c

  -- On well-formed types `subsume` gives an answer: no downcast panics, and the sizes of the two
  -- types bound the depth of the recursion.
  pub subsume-Returns :
      (l r : Ty) (c : Bool) → IsWellFormed l → IsWellFormed r → Returns (subsume show_f64 l r c)
  unfolding subsume
  subsume-Returns l r c wl wr = subsume_fuel-Returns _ l r c wl wr (omega arith)
