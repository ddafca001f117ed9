-- ===== src/Resolver/Check/Combine.antt =====
-- What a check of kclvm/sema/src/resolver/ty.rs does to the handler, and how checks are combined.
use kclvm.Prelude.{ℕ, ◌≤◌, Bool, true, false, ◌≡◌, refl, some, arith}
use kclvm.Handler.{Handler}
use kclvm.Handler.Grows.{Extends, Extends-refl, Extends-trans}
use kclvm.Ty.Kind.{Ty, ty, Tys, nil, cons, TypeKind, schema_type, OptIndex, no_index, some_index}
use kclvm.Ty.Unify.Size.{size, size_list}
use kclvm.Ty.WellFormed.{IsWellFormed}
use kclvm.Resolver.Check.{Checked, and_check, or_check, all_check, any_check}

-- The types of the index signatures of the schemas that a check can reach are well formed.
abbrev mutual
  pub HasWellFormedIndexes : Ty → Type 0
  HasWellFormedIndexes (ty k a f) = KindHasWellFormedIndexes k

  pub KindHasWellFormedIndexes : TypeKind → Type 0
  KindHasWellFormedIndexes (TypeKind.list t) = HasWellFormedIndexes t
  KindHasWellFormedIndexes (TypeKind.dict k v) = HasWellFormedIndexes k × HasWellFormedIndexes v
  KindHasWellFormedIndexes (TypeKind.union ts) = TysHaveWellFormedIndexes ts
  KindHasWellFormedIndexes (TypeKind.schema (schema_type i b p m a f x)) = IndexIsWellFormed x
  KindHasWellFormedIndexes _ = Unit

  pub TysHaveWellFormedIndexes : Tys → Type 0
  TysHaveWellFormedIndexes nil = Unit
  TysHaveWellFormedIndexes (cons t ts) = HasWellFormedIndexes t × TysHaveWellFormedIndexes ts

  pub IndexIsWellFormed : OptIndex → Type 0
  IndexIsWellFormed no_index = Unit
  IndexIsWellFormed (some_index i k v) = IsWellFormed k × IsWellFormed v

-- A check returns, and the handler keeps all its diagnostics and gets new ones at the end only.
unfoldable pub Checks : Handler → Checked → Type 0
Checks h o = (b : Bool) × (k : Handler) × (o ≡ some (b, k)) × Extends h k

pub Checks-later : (h k : Handler) (o : Checked) → Extends h k → Checks k o → Checks h o
unfolding Checks
Checks-later h k o x (b, j, e, y) = (b, j, e, Extends-trans h k j x y)

pub and_check-Checks :
    (h : Handler) (o : Checked) (next : Handler → Checked)
    → Checks h o
    → ((k : Handler) → Checks k (next k))
    → Checks h (and_check o next)
unfolding Checks and_check
and_check-Checks h o next (true, k, e, x) s =
    rw e (unfold Checks in Checks-later h k (next k) x (s k))
and_check-Checks h o next (false, k, e, x) s = rw e (false, k, refl, x)

pub or_check-Checks :
    (h : Handler) (o : Checked) (next : Handler → Checked)
    → Checks h o
    → ((k : Handler) → Checks k (next k))
    → Checks h (or_check o next)
unfolding Checks or_check
or_check-Checks h o next (false, k, e, x) s =
    rw e (unfold Checks in Checks-later h k (next k) x (s k))
or_check-Checks h o next (true, k, e, x) s = rw e (true, k, refl, x)

-- A check that returns on each type of a list returns on the list.
module _ (check : Ty → Handler → Checked) (n : ℕ) where
  abbrev ChecksBelow : Ty → Type 0
  ChecksBelow t = size t ≤ n → (h : Handler) → Checks h (check t h)

  abbrev pub AllCheck : Tys → Type 0
  AllCheck nil = Unit
  AllCheck (cons t ts) = ChecksBelow t × AllCheck ts

  pub all_check-Checks :
      (ts : Tys) → AllCheck ts → size_list ts ≤ n → (h : Handler) → Checks h (all_check check ts h)
  unfolding all_check size
  all_check-Checks nil w m h = unfold Checks in (true, h, refl, Extends-refl h)
  all_check-Checks (cons t ts) w m h =
      and_check-Checks h _ (all_check check ts) (w.0 (omega arith) h)
        (all_check-Checks ts w.1 (omega arith))

  pub any_check-Checks :
      (ts : Tys) → AllCheck ts → size_list ts ≤ n → (h : Handler) → Checks h (any_check check ts h)
  unfolding any_check size
  any_check-Checks nil w m h = unfold Checks in (false, h, refl, Extends-refl h)
  any_check-Checks (cons t ts) w m h =
      or_check-Checks h _ (any_check check ts) (w.0 (omega arith) h)
        (any_check-Checks ts w.1 (omega arith))
