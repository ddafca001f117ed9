-- ===== src/Ty/Unify/Size.antt =====
-- The number of nodes that the recursion of kclvm/sema/src/ty/unify.rs can reach in a type.
use kclvm.Prelude.{ℕ, suc, ◌+◌, ◌<◌, arith}
use kclvm.Ty.Kind.{Ty, ty, Tys, nil, cons, TypeKind}

unfoldable mutual
  pub size : Ty → ℕ
  size (ty k a f) = suc (size_kind k)

  pub size_kind : TypeKind → ℕ
  size_kind (TypeKind.list t) = size t
  size_kind (TypeKind.dict k v) = size k + size v
  size_kind (TypeKind.union ts) = size_list ts
  size_kind _ = 0

  pub size_list : Tys → ℕ
  size_list nil = 0
  size_list (cons t ts) = size t + size_list ts

pub size-pos : (t : Ty) → 0 < size t
unfolding size
size-pos (ty k a f) = omega arith
