-- ===== src/Prelude/Search.antt =====
-- The search loop of the stores: walk a list, collect what matches, and stop at the limit.
use Prim.Native.Nat.{ℕ, zero, suc, ◌+◌, ◌-◌, max}
use mathlib.Core.Path.{◌≡◌, refl, ap, ◌∙◌, sym}
use mathlib.Core.Logic.{inl, inr}
use mathlib.Core.Bool.{Bool, true, false}
use mathlib.Core.List.{List, [], ◌∷◌, ◌++◌, append_assoc, append-nil}
use native.Mathlib.Omega.{arith}
use solprobe.Prelude.Tests.{if◌then◌else◌, leb, Bool-cases}
use solprobe.Prelude.Lists.{length, take, filter_by, length-append}

module _ {ℓ} {A : Type ℓ} (p : A → Bool) (limit : ℕ) where
  -- `results.append(a); if len(results) >= limit: break`
  unfoldable pub collect : List A → List A → List A
  collect results [] = results
  collect results (a ∷ rest) =
      let found = results ++ a ∷ [] in
      let go_on = collect found rest in
      let skip = collect results rest in
      if p a then if leb limit (length found) then found else go_on else skip

  collect-eq-append :
      (results xs : List A) (room : ℕ)
      → length results + suc room ≡ max 1 limit
      → collect results xs ≡ results ++ take (suc room) (filter_by p xs)
  unfolding collect
  collect-eq-append results [] room h = sym (append-nil results)
  collect-eq-append results (a ∷ rest) zero h = elim (Bool-cases (p a)) [
    | inl hit ↦
        let full : leb limit (length (results ++ a ∷ [])) ≡ true =
          ground (arith, length-append results (a ∷ [])) in
        rw (hit, full) refl
    | inr miss ↦ rw miss (collect-eq-append results rest zero h)
  ]
  collect-eq-append results (a ∷ rest) (suc room) h = elim (Bool-cases (p a)) [
    | inl hit ↦
        let found : List A = results ++ a ∷ [] in
        let longer : length found ≡ length results + 1 = length-append results (a ∷ []) in
        let open_end : leb limit (length found) ≡ false = ground (arith, longer) in
        rw (hit, open_end)
          (collect-eq-append found rest room (omega (arith, longer))
            ∙ append_assoc results (a ∷ []) (take (suc room) (filter_by p rest)))
    | inr miss ↦ rw miss (collect-eq-append results rest (suc room) h)
  ]

  -- The loop returns the first matches, at least one if there is one, and `limit` at most.
  pub collect-eq-take : (xs : List A) → collect [] xs ≡ take (max 1 limit) (filter_by p xs)
  collect-eq-take xs =
      let room : ℕ = max 1 limit - 1 in
      let size : suc room ≡ max 1 limit = omega arith in
      collect-eq-append [] xs room (omega arith) ∙ ap (λ k. take k (filter_by p xs)) size
