-- ===== src/Tests/Subtyping.antt =====
-- Runs of kclvm/sema/src/ty/unify.rs.
use kclvm.Prelude.{
  Bool, ◌≡◌, ◌↔◌, refl, [], ◌∷◌, ◌++◌, List, some, true, false, codes, inl, inr, All, Returns, ◌⊎◌,
}
use kclvm.Prelude.Pairs.{AllPairs, Member}
use kclvm.Prelude.Int.{pos}
use kclvm.Ty.Kind.{Ty, TypeKind, of_list}
use kclvm.Ty.WellFormed.{canonical, IsWellFormed}
use kclvm.Ty.Build.{int_ty, float_ty, bool_ty, float_lit, str_lit}
use kclvm.Ty.Equal.{f64_eq}
use kclvm.Ty.Into.{ty_str}
use kclvm.Ty.Unify.{
  subsume, subsume_step, literal_subsume, sup, of_type_set, remove_sub_types, below_one,
  add_types_to_type_set,
}
use kclvm.Ty.Unify.Total.{subsume-Returns}
use kclvm.Ty.Unify.Reflexive.{subsume_refl, member-Below-union}
use kclvm.Ty.Unify.Union.{union-Below_iff, Below, AllTys}
use kclvm.Ty.Unify.Sup.{sup_lem}
use kclvm.Ty.Unify.Antichain.{Unrelated, BelowAnother}
use kclvm.Ty.Unify.Flatten.{add_types-distinct, distinct, all_leaves}
use kclvm.Ty.Unify.Literals.{str_lit-below-primitive, int_lit-below-float_lit}
use kclvm.Ty.Unify.Alias.{sup-drops_alias}
use kclvm.Tests.Data.{show_bits, one, a_or_one, int_or_str, table}

a_or_one-IsWellFormed : IsWellFormed a_or_one
a_or_one-IsWellFormed = (refl, ((refl, tt), ((refl, tt), tt)))

int_or_str-IsWellFormed : IsWellFormed int_or_str
int_or_str-IsWellFormed = (refl, ((refl, tt), ((refl, tt), tt)))

table-IsWellFormed : IsWellFormed table
table-IsWellFormed = (refl, ((refl, tt), (refl, a_or_one-IsWellFormed)))

subsume-Returns_example : Returns (subsume show_bits table int_or_str true)
subsume-Returns_example =
    subsume-Returns show_bits table int_or_str true table-IsWellFormed int_or_str-IsWellFormed

subsume_refl_example : subsume show_bits table table false ≡ some true
subsume_refl_example = subsume_refl show_bits table false table-IsWellFormed (tt, (tt, (tt, tt)))

union-Below_iff_example :
    Below show_bits a_or_one int_or_str
    ↔ AllTys (λ t. Below show_bits t int_or_str) (of_list (str_lit (codes "a") ∷ one ∷ []))
union-Below_iff_example =
    union-Below_iff show_bits (of_list (str_lit (codes "a") ∷ one ∷ [])) false int_or_str

member-Below-union_example : Below show_bits one a_or_one
member-Below-union_example =
    member-Below-union show_bits one (of_list (str_lit (codes "a") ∷ one ∷ [])) false (refl, tt) tt
      a_or_one-IsWellFormed.1 (inr (inl refl))

sup_lem_example :
    (kept : List Ty) × (sup show_bits (a_or_one ∷ int_ty ∷ []) ≡ some (of_type_set kept))
    × All (λ t. Member t (all_leaves (a_or_one ∷ int_ty ∷ []))) kept
    × AllPairs (Unrelated show_bits) kept
    × All
        (λ t.
          Member t kept
          ⊎ BelowAnother show_bits (distinct [] (all_leaves (a_or_one ∷ int_ty ∷ []))) t)
        (distinct [] (all_leaves (a_or_one ∷ int_ty ∷ [])))
    × IsWellFormed (of_type_set kept)
sup_lem_example =
    sup_lem show_bits (a_or_one ∷ int_ty ∷ []) (a_or_one-IsWellFormed, ((refl, tt), tt))

int_then_float : remove_sub_types show_bits [] (int_ty ∷ float_ty ∷ []) ≡ some (float_ty ∷ [])
unfolding remove_sub_types below_one subsume kclvm.Ty.Unify.subsume_fuel kclvm.Ty.Unify.Size.size
    subsume_step kclvm.Ty.Flags.is_any kclvm.Ty.Flags.is_none kclvm.Ty.Flags.is_union
    kclvm.Ty.Flags.is_schema kclvm.Ty.Flags.is_int kclvm.Ty.Flags.is_float
    kclvm.Ty.Flags.is_number_multiplier kclvm.Ty.Flags.is_primitive kclvm.Ty.Unify.equal
    kclvm.Ty.Equal.kind_eq
int_then_float = refl

add_types-distinct_example :
    add_types_to_type_set [] (a_or_one ∷ one ∷ []) ≡ distinct [] (all_leaves (a_or_one ∷ one ∷ []))
add_types-distinct_example = add_types-distinct [] (a_or_one ∷ one ∷ [])

-- `"print"` is below `int`.
str_lit-below-primitive_example :
    subsume show_bits
      (str_lit (codes "pr" ++ ty_str show_bits (canonical TypeKind.int false) ++ []))
      int_ty
      false
    ≡ some true
str_lit-below-primitive_example =
    str_lit-below-primitive show_bits TypeKind.int false false (codes "pr") [] tt

int_lit-below-float_lit_example :
    (subsume show_bits one (float_lit 7) false ≡ some true)
    × (subsume show_bits (float_lit 9) (float_lit 7) false ≡ some (f64_eq 9 7))
int_lit-below-float_lit_example = int_lit-below-float_lit show_bits (pos 1) 7 9 false

str_bool-Unrelated :
    (b : Bool) → Unrelated show_bits (canonical TypeKind.str b) (canonical TypeKind.bool false)
unfolding subsume kclvm.Ty.Unify.subsume_fuel kclvm.Ty.Unify.Size.size subsume_step
    kclvm.Ty.Flags.is_any kclvm.Ty.Flags.is_none kclvm.Ty.Flags.is_union kclvm.Ty.Flags.is_schema
    kclvm.Ty.Flags.is_int kclvm.Ty.Flags.is_float kclvm.Ty.Flags.is_number_multiplier
    kclvm.Ty.Flags.is_primitive kclvm.Ty.Unify.equal kclvm.Ty.Equal.kind_eq
str_bool-Unrelated true = (refl, refl)
str_bool-Unrelated false = (refl, refl)

sup-drops_alias_example :
    (sup show_bits (
        canonical TypeKind.str false
        ∷ canonical TypeKind.str true
        ∷ canonical TypeKind.bool false
        ∷ [])
      ≡ some bool_ty)
    × (subsume show_bits (canonical TypeKind.str false) bool_ty false ≡ some false)
unfolding kclvm.Ty.Equal.kind_eq
sup-drops_alias_example =
    sup-drops_alias show_bits TypeKind.str TypeKind.bool false refl refl refl tt tt
      str_bool-Unrelated
