-- ===== src/Base/Keys.antt =====
-- The keys of a map, sorted, as the source ranges over one in order.
use mathlib.Core.Path.{◌≡◌, refl}
use mathlib.Core.Bool.{◌||◌}
use mathlib.Core.List.{List, [], ◌∷◌}
use native.Mathlib.Omega.{arith}
use pg_fuzz.Base.Tests.{is_some}
use pg_fuzz.Base.Texts.{Text, eq, less}
use pg_fuzz.Base.Maps.{Map, lookup}
use pg_fuzz.Base.Sort.{insert_by, sort_by}
use pg_fuzz.Base.Fields.{holds}

abbrev pub keys {ℓ} : {V : Type ℓ} → Map V → List Text
keys [] = []
keys ((k, v) ∷ m) = k ∷ keys m

pub holds-keys {ℓ} : {V : Type ℓ} (t : Text) (m : Map V) → holds t (keys m) ≡ is_some (lookup t m)
unfolding holds
holds-keys t [] = refl
holds-keys t ((k, v) ∷ m) = ground (arith, holds-keys t m)

holds-insert_by :
    (k x : Text) (ys : List Text) → holds k (insert_by less x ys) ≡ eq x k || holds k ys
unfolding holds
holds-insert_by k x [] = refl
holds-insert_by k x (y ∷ ys) = ground (arith, holds-insert_by k x ys)

pub holds-sort_by : (k : Text) (xs : List Text) → holds k (sort_by less xs) ≡ holds k xs
unfolding holds
holds-sort_by k [] = refl
holds-sort_by k (x ∷ xs) = ground (arith, holds-insert_by k x (sort_by less xs), holds-sort_by k xs)
