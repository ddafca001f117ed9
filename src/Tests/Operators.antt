-- ===== src/Tests/Operators.antt =====
-- Runs of kclvm/sema/src/resolver/calculation.rs.
use kclvm.Prelude.{◌≡◌, refl, [], codes, some, ◌⊎◌, length, ◌≤◌, true, false}
use kclvm.Handler.{Handler, add_type_error, has_diagnostic}
use kclvm.Handler.Grows.{Extends}
use kclvm.Resolver.Ops.{BinOp, CmpOp}
use kclvm.Resolver.Calculation.{binary, compare, unsupported_msg}
use kclvm.Resolver.Calculation.Total.{binary-Returns}
use kclvm.Resolver.Calculation.Comparable.{class_of, takes, Rejects, compare-takes}
use kclvm.Resolver.Calculation.Laws.{
  zero_error, is_zero_number, binary-numbers, compare_comm, binary-rejects, type_of,
}
use kclvm.Ty.Kind.{Ty}
use kclvm.Ty.WellFormed.{IsWellFormed}
use kclvm.Ty.Build.{int_ty, str_ty, any_ty, bool_ty, int_lit}
use kclvm.Prelude.Int.{pos}
use kclvm.Tests.Data.{show_bits, one, main_pos}

binary-Returns_example :
    (v : Ty) × (k : Handler) × (binary show_bits one str_ty BinOp.sub main_pos [] ≡ some (v, k))
    × IsWellFormed v
    × Extends [] k
binary-Returns_example =
    binary-Returns show_bits one str_ty BinOp.sub main_pos [] (refl, tt) (refl, tt)

-- `1 / 0` has the type `int`, and the error of a division by zero.
binary-numbers_example :
    (j : Handler) × (binary show_bits one (int_lit (pos 0)) BinOp.div main_pos []
      ≡ some (int_ty, j))
    × Extends [] j
    × (length j ≤ 1)
    × (true ≡ true → has_diagnostic j (zero_error main_pos) ≡ true)
    × (true ≡ false → j ≡ [])
unfolding kclvm.Ty.Flags.is_union kclvm.Ty.Flags.is_any kclvm.Ty.Flags.is_number
    kclvm.Ty.Flags.is_float is_zero_number
binary-numbers_example =
    binary-numbers show_bits BinOp.div one (int_lit (pos 0)) main_pos [] refl refl refl refl refl
      refl refl (refl, tt)

compare_comm_example :
    type_of (compare show_bits one str_ty CmpOp.lt main_pos [])
    ≡ type_of (compare show_bits str_ty one CmpOp.lt main_pos [])
compare_comm_example = compare_comm show_bits one str_ty CmpOp.lt main_pos [] refl

abbrev reported : Handler
reported = add_type_error (unsupported_msg show_bits (codes "-") int_ty str_ty) main_pos []

int_sub_str : binary show_bits int_ty str_ty BinOp.sub main_pos [] ≡ some (any_ty, reported)
unfolding binary kclvm.Ty.Context.literal_union_type_to_variable_type kclvm.Ty.Flags.is_union
    kclvm.Ty.Unify.has_any_type kclvm.Ty.Flags.is_any kclvm.Resolver.Calculation.bin_table
    kclvm.Ty.Flags.is_number kclvm.Resolver.Calculation.report_unsupported
    kclvm.Resolver.Ops.bin_symbol kclvm.Resolver.Calculation.number_binary kclvm.Ty.Flags.is_float
int_sub_str = refl

binary-rejects_example : (reported ≡ []) ⊎ (any_ty ≡ any_ty)
binary-rejects_example =
    binary-rejects show_bits BinOp.sub int_ty str_ty main_pos [] reported any_ty refl int_sub_str

compare-takes_example :
    (false ≡ true → compare show_bits str_ty str_ty CmpOp.lt main_pos [] ≡ some (bool_ty, []))
    × (false ≡ false
        → Rejects
            (unsupported_msg show_bits (codes "<") str_ty str_ty)
            main_pos
            []
            (compare show_bits str_ty str_ty CmpOp.lt main_pos []))
unfolding kclvm.Ty.Flags.is_union kclvm.Ty.Flags.is_any class_of takes kclvm.Resolver.Ops.cmp_symbol
compare-takes_example =
    compare-takes show_bits str_ty str_ty CmpOp.lt main_pos [] (refl, tt) (refl, tt) refl refl refl
      refl
