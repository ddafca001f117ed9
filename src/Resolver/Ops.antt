-- ===== src/Resolver/Ops.antt =====
-- kclvm/ast/src/ast.rs: the operators of expressions, and their symbols.
use kclvm.Prelude.{Text, codes}

pub data BinOp : Type 0 where
  add sub mul div mod_op pow floor_div l_shift r_shift bit_xor bit_and bit_or and_op or_op as_op :
      BinOp

pub data UnaryOp : Type 0 where
  u_add u_sub invert not_op : UnaryOp

pub data CmpOp : Type 0 where
  eq not_eq lt lt_e gt gt_e is in_op not_in not_cmp is_not : CmpOp

unfoldable pub bin_symbol : BinOp → Text
bin_symbol BinOp.add = codes "+"
bin_symbol BinOp.sub = codes "-"
bin_symbol BinOp.mul = codes "*"
bin_symbol BinOp.div = codes "/"
bin_symbol BinOp.mod_op = codes "%"
bin_symbol BinOp.pow = codes "**"
bin_symbol BinOp.floor_div = codes "//"
bin_symbol BinOp.l_shift = codes "<<"
bin_symbol BinOp.r_shift = codes ">>"
bin_symbol BinOp.bit_xor = codes "^"
bin_symbol BinOp.bit_and = codes "&"
bin_symbol BinOp.bit_or = codes "|"
bin_symbol BinOp.and_op = codes "and"
bin_symbol BinOp.or_op = codes "or"
bin_symbol BinOp.as_op = codes "as"

unfoldable pub unary_symbol : UnaryOp → Text
unary_symbol UnaryOp.u_add = codes "+"
unary_symbol UnaryOp.u_sub = codes "-"
unary_symbol UnaryOp.invert = codes "~"
unary_symbol UnaryOp.not_op = codes "not"

unfoldable pub cmp_symbol : CmpOp → Text
cmp_symbol CmpOp.eq = codes "=="
cmp_symbol CmpOp.not_eq = codes "!="
cmp_symbol CmpOp.lt = codes "<"
cmp_symbol CmpOp.lt_e = codes "<="
cmp_symbol CmpOp.gt = codes ">"
cmp_symbol CmpOp.gt_e = codes ">="
cmp_symbol CmpOp.is = codes "is"
cmp_symbol CmpOp.in_op = codes "in"
cmp_symbol CmpOp.not_in = codes "not in"
cmp_symbol CmpOp.not_cmp = codes "not"
cmp_symbol CmpOp.is_not = codes "is not"
