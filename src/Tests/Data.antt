-- ===== src/Tests/Data.antt =====
-- Types, positions and the printing of floats that the runs share.
use kclvm.Prelude.{[], ◌∷◌, Text, codes, show_ℕ, none}
use kclvm.Prelude.Int.{pos}
use kclvm.Ty.Kind.{F64, Position, Ty}
use kclvm.Ty.Build.{int_ty, str_ty, int_lit, str_lit, union, dict, list}

abbrev pub show_bits : F64 → Text
show_bits n = show_ℕ n

abbrev pub one : Ty
one = int_lit (pos 1)

abbrev pub a_or_one : Ty
a_or_one = union (str_lit (codes "a") ∷ one ∷ [])

abbrev pub int_or_str : Ty
int_or_str = union (int_ty ∷ str_ty ∷ [])

abbrev pub table : Ty
table = dict str_ty (list a_or_one)

abbrev pub main_pos : Position
main_pos = record { filename = codes "main.k"; line = 3; column = none }
