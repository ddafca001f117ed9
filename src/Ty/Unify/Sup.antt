-- ===== src/Ty/Unify/Sup.antt =====
-- `typeof` and `sup` as a whole.
use kclvm.Prelude.{
  false, not, ◌&&◌, ◌||◌, ◌≡◌, ◌⊎◌, inl, inr, refl, Text, List, [], ◌∷◌, ◌++◌, some, if◌then◌else◌,
  All, Returns, Bool-cases,
}
use kclvm.Prelude.Pairs.{AllPairs, Member, All-append, All-member, All-imp}
use kclvm.Ty.Kind.{Ty, ty, Tys, nil, cons, TypeKind, F64, of_list}
use kclvm.Ty.Equal.{contains_ty}
use kclvm.Ty.Flags.{is_void}
use kclvm.Ty.Unify.{below_one, remove_sub_types, typeof, sup, of_type_set}
use kclvm.Ty.Unify.Flatten.{
  leaves, leaves_kind, leaves_members, all_leaves, distinct, keep, add_types-distinct,
}
use kclvm.Ty.Unify.Antichain.{Unrelated, BelowAnother, remove_sub_types-antichain}
use kclvm.Ty.Unify.Total.{subsume-Returns}
use kclvm.Ty.WellFormed.{IsWellFormed, KindIsWellFormed, TysAreWellFormed}

keep-All : (P : Ty → Type 0) (seen : List Ty) (t : Ty) → All P seen → P t → All P (keep seen t)
keep-All P seen t h k = elim (Bool-cases (not (is_void t) && not (contains_ty seen t))) [
  | inl e ↦ rw e (All-append P seen (t ∷ []) h (k, tt))
  | inr e ↦ rw e h
]

distinct-All :
    (P : Ty → Type 0) (seen ts : List Ty) → All P seen → All P ts → All P (distinct seen ts)
unfolding distinct
distinct-All P seen [] h k = h
distinct-All P seen (t ∷ ts) h k = distinct-All P (keep seen t) ts (keep-All P seen t h k.0) k.1

Member-All : (xs : List Ty) → All (λ t. Member t xs) xs
Member-All [] = tt
Member-All (x ∷ xs) = (
  inl refl,
  All-imp (λ t. Member t xs) (λ t. Member t (x ∷ xs)) (λ t m. inr m) xs (Member-All xs),
)

mutual
  unfolding leaves

  leaves-IsWellFormed : (t : Ty) → IsWellFormed t → All IsWellFormed (leaves t)
  leaves-IsWellFormed (ty k a f) w = leaves_kind-IsWellFormed k (ty k a f) w w.1

  leaves_kind-IsWellFormed :
      (k : TypeKind) (t : Ty)
      → IsWellFormed t
      → KindIsWellFormed k
      → All IsWellFormed (leaves_kind k t)
  leaves_kind-IsWellFormed (TypeKind.union ts) t w v = leaves_members-IsWellFormed ts v
  leaves_kind-IsWellFormed _ t w v = (w, tt)

  leaves_members-IsWellFormed :
      (ts : Tys) → TysAreWellFormed ts → All IsWellFormed (leaves_members ts)
  leaves_members-IsWellFormed nil w = tt
  leaves_members-IsWellFormed (cons t ts) w =
      All-append IsWellFormed (leaves t) (leaves_members ts) (leaves-IsWellFormed t w.0)
        (leaves_members-IsWellFormed ts w.1)

all_leaves-IsWellFormed : (ts : List Ty) → All IsWellFormed ts → All IsWellFormed (all_leaves ts)
unfolding all_leaves
all_leaves-IsWellFormed [] w = tt
all_leaves-IsWellFormed (t ∷ ts) w =
    All-append IsWellFormed (leaves t) (all_leaves ts) (leaves-IsWellFormed t w.0)
      (all_leaves-IsWellFormed ts w.1)

of_list-IsWellFormed : (ts : List Ty) → All IsWellFormed ts → TysAreWellFormed (of_list ts)
of_list-IsWellFormed [] w = tt
of_list-IsWellFormed (t ∷ ts) w = (w.0, of_list-IsWellFormed ts w.1)

of_type_set-IsWellFormed : (ts : List Ty) → All IsWellFormed ts → IsWellFormed (of_type_set ts)
unfolding of_type_set
of_type_set-IsWellFormed [] w = (refl, tt)
of_type_set-IsWellFormed (t ∷ []) w = w.0
of_type_set-IsWellFormed (t ∷ u ∷ ts) w = (refl, of_list-IsWellFormed (t ∷ u ∷ ts) w)

module _ (show_f64 : F64 → Text) where
  below_one-Returns :
      (t : Ty) (us : List Ty)
      → IsWellFormed t
      → All IsWellFormed us
      → Returns (below_one show_f64 t us)
  unfolding below_one
  below_one-Returns t [] w ws = (false, refl)
  below_one-Returns t (u ∷ us) w ws =
      let (b, e) = subsume-Returns show_f64 t u false w ws.0 in
      let (c, d) = below_one-Returns t us w ws.1 in (b || c, rw (e, d) refl)

  remove_sub_types-Returns :
      (before ts : List Ty)
      → All IsWellFormed before
      → All IsWellFormed ts
      → Returns (remove_sub_types show_f64 before ts)
  unfolding remove_sub_types
  remove_sub_types-Returns before [] w ws = ([], refl)
  remove_sub_types-Returns before (t ∷ ts) w ws =
      let others = All-append IsWellFormed before ts w ws.1 in
      let (b, e) = below_one-Returns t (before ++ ts) ws.0 others in
      let earlier = All-append IsWellFormed before (t ∷ []) w (ws.0, tt) in
      let (rest, d) = remove_sub_types-Returns (before ++ t ∷ []) ts earlier ws.1 in
      (if b then rest else t ∷ rest, rw (e, d) refl)

  sup-remove_sub_types :
      (types kept : List Ty)
      → remove_sub_types show_f64 [] (distinct [] (all_leaves types)) ≡ some kept
      → sup show_f64 types ≡ some (of_type_set kept)
  unfolding sup typeof
  sup-remove_sub_types types kept h = rw (add_types-distinct, h) refl

  -- On well-formed types `sup` returns `any`, a type or a union, which is well formed. It is made
  -- of types that are no unions and that the given types hold, and no two of these are one below
  -- the other. Of the distinct types that the given ones hold, each that is left out is below the
  -- type at another place.
  pub sup_lem :
      (types : List Ty)
      → All IsWellFormed types
      → (kept : List Ty) × (sup show_f64 types ≡ some (of_type_set kept))
        × All (λ t. Member t (all_leaves types)) kept
        × AllPairs (Unrelated show_f64) kept
        × All
            (λ t. Member t kept ⊎ BelowAnother show_f64 (distinct [] (all_leaves types)) t)
            (distinct [] (all_leaves types))
        × IsWellFormed (of_type_set kept)
  sup_lem types w =
      let ls = all_leaves types in
      let ws = distinct-All IsWellFormed [] ls tt (all_leaves-IsWellFormed types w) in
      let (kept, e) = remove_sub_types-Returns [] (distinct [] ls) tt ws in
      let (members, pairs, others) = remove_sub_types-antichain show_f64 (distinct [] ls) kept e in
      let from = distinct-All (λ t. Member t ls) [] ls tt (Member-All ls) in
      (
        kept,
        sup-remove_sub_types types kept e,
        All-imp (λ t. Member t (distinct [] ls)) (λ t. Member t ls)
            (λ t m. All-member (λ u. Member u ls) (distinct [] ls) t from m) kept members,
        pairs,
        others,
        of_type_set-IsWellFormed kept (
            All-imp (λ t. Member t (distinct [] ls)) IsWellFormed
              (λ t m. All-member IsWellFormed (distinct [] ls) t ws m) kept members),
      )
