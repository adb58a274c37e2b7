-- ===== src/Prelude/Dict.antt =====
-- Python's `dict`: keys in the order of their first insertion, a write to a key that is there
-- keeps its place. Also the comprehension `{k: v for k, v in d.items() if p k v}`.
pub mod Order
use solprobe.Prelude.Tests.{if◌then◌else◌}
use solprobe.Prelude.Keys.{Comparable, ◌==◌}
use solprobe.Prelude.Lists.{length}
use Prim.Native.Nat.{ℕ}
use mathlib.Core.Path.{◌≡◌, refl}
use mathlib.Core.Bool.{Bool, true, false, ◌&&◌, not}
use mathlib.Core.Option.{Option, none, some}
use mathlib.Core.List.{List, [], ◌∷◌, ◌++◌, map}
use native.Mathlib.Omega.{arith}

abbrev pub Dict {ℓ κ} : Type ℓ → Type κ → Type (ℓ ⊔ κ)
Dict K V = List (K × V)

-- d.keys() and d.values()
abbrev pub keys {ℓ κ} : {K : Type ℓ} {V : Type κ} → Dict K V → List K
keys [] = []
keys ((k, v) ∷ d) = k ∷ keys d

abbrev pub values {ℓ κ} : {K : Type ℓ} {V : Type κ} → Dict K V → List V
values [] = []
values ((k, v) ∷ d) = v ∷ values d

-- the items that a comprehension keeps
unfoldable pub keep_items {ℓ κ} : {K : Type ℓ} {V : Type κ} → (K → V → Bool) → Dict K V → Dict K V
keep_items p [] = []
keep_items p ((k, v) ∷ d) = if p k v then (k, v) ∷ keep_items p d else keep_items p d

module _ {ℓ κ} {K : Type ℓ} {V : Type κ} ⦃e : Comparable K⦄ where
  -- d.get(k)
  unfoldable pub get : K → Dict K V → Option V
  get k [] = none
  get k ((j, v) ∷ d) = if j == k then some v else get k d

  -- d[k] = v
  unfoldable pub put : K → V → Dict K V → Dict K V
  put k v [] = (k, v) ∷ []
  put k v ((j, w) ∷ d) = if j == k then (j, v) ∷ d else (j, w) ∷ put k v d

  -- del d[k], d.pop(k, None)
  unfoldable pub remove : K → Dict K V → Dict K V
  remove k [] = []
  remove k ((j, w) ∷ d) = if j == k then remove k d else (j, w) ∷ remove k d

  pub get-put :
      (k j : K) (v : V) (d : Dict K V) → get j (put k v d) ≡ (if k == j then some v else get j d)
  unfolding get put
  get-put k j v [] = refl
  get-put k j v ((i, w) ∷ d) =
      ground (arith, e.same_iff i k, e.same_iff i j, e.same_iff k j, get-put k j v d)

  pub get-put_self : (k : K) (v : V) (d : Dict K V) → get k (put k v d) ≡ some v
  get-put_self k v d = ground (arith, get-put k k v d, e.same_iff k k)

  pub put-absent : (k : K) (v : V) (d : Dict K V) → get k d ≡ none → put k v d ≡ d ++ (k, v) ∷ []
  unfolding get put
  put-absent k v [] h = refl
  put-absent k v ((i, w) ∷ d) h = ground (arith, put-absent k v d)

  pub get-remove :
      (k j : K) (d : Dict K V) → get j (remove k d) ≡ (if k == j then none else get j d)
  unfolding get remove
  get-remove k j [] = ground arith
  get-remove k j ((i, w) ∷ d) =
      ground (arith, e.same_iff i k, e.same_iff i j, e.same_iff k j, get-remove k j d)

  pub get-append :
      (j : K) (c d : Dict K V)
      → get j (c ++ d) ≡ elim (get j c) [ some v ↦ some v | none ↦ get j d ]
  unfolding get
  get-append j [] d = refl
  get-append j ((i, w) ∷ c) d = ground (arith, get-append j c d)

  -- A comprehension that looks at the key alone.
  pub get-keep_items :
      (p : K → Bool) (j : K) (d : Dict K V)
      → get j (keep_items (λ k _. p k) d) ≡ (if p j then get j d else none)
  unfolding get keep_items
  get-keep_items p j [] = ground arith
  get-keep_items p j ((i, w) ∷ d) = ground (arith, e.same_iff i j, get-keep_items p j d)

pub ruleset dict_laws = (get-put, get-put_self, get-remove, get-append, get-keep_items)
