-- ===== src/Diagnosis/RateLimiter.antt =====
-- backend/app/diagnosis/rate_limiter.py, over the floating point numbers `fl`; times are seconds on
-- a monotonic clock.
use solprobe.Prelude.{
  ◌≡◌, refl, String, Bool, true, false, Option, none, some, [], if◌then◌else◌, ◌==◌, string_eq,
  Bool-cases, ◌⊎◌, inl, inr, not, ap, sym, ◌∙◌,
}
use solprobe.Prelude.Int.{pos}
use solprobe.Prelude.Floats.{Floats}
use solprobe.Prelude.Dict.{Dict, get, put, remove, get-put}

module _ (fl : Floats) where
  open fl use {F, lt, sub, of_int}

  pub record RateLimiter : Type 0 where
    pub cooldown : F
    pub last_call : Dict String F

  abbrev or_start : Option F → F
  or_start none = of_int (pos 0)
  or_start (some t) = t

  -- `now - last < self._cooldown`, for a node without an entry from the start of the clock
  unfoldable pub refuses : RateLimiter → String → F → Bool
  unfolding get
  refuses r node_id now = lt (sub now (or_start (get node_id r.last_call))) r.cooldown

  unfoldable pub try_acquire : RateLimiter → String → F → Bool × RateLimiter
  unfolding refuses put
  try_acquire r node_id now =
      if refuses r node_id now
      then (false, r)
      else (true, record r { last_call = put node_id now r.last_call })

  unfoldable pub reset : RateLimiter → String → RateLimiter
  unfolding remove
  reset r node_id = record r { last_call = remove node_id r.last_call }

  unfoldable pub reset_all : RateLimiter → RateLimiter
  reset_all r = record r { last_call = [] }

  granted-refuses :
      (r : RateLimiter) (q : String) (later : F)
      → (try_acquire r q later).0 ≡ not (refuses r q later)
  unfolding try_acquire
  granted-refuses r q later = elim (Bool-cases (refuses r q later)) [
    | inl busy ↦ rw (try_acquire, busy) refl
    | inr free ↦ rw (try_acquire, free) refl
  ]

  refuses-put :
      (r : RateLimiter) (node_id q : String) (now later : F)
      → refuses (record r { last_call = put node_id now r.last_call }) q later
        ≡ (if node_id == q then lt (sub later now) r.cooldown else refuses r q later)
  unfolding refuses
  refuses-put r node_id q now later = elim (Bool-cases (node_id == q)) [
    | inl same ↦ rw (refuses, get-put node_id q now r.last_call, same) refl
    | inr other ↦ rw (refuses, get-put node_id q now r.last_call, other) refl
  ]

  granted-put :
      (r : RateLimiter) (node_id q : String) (now later : F)
      → (try_acquire (record r { last_call = put node_id now r.last_call }) q later).0
        ≡ (if node_id == q then not (lt (sub later now) r.cooldown) else (try_acquire r q later).0)
  granted-put r node_id q now later =
      let after = refuses-put r node_id q now later in
      let new = granted-refuses (record r { last_call = put node_id now r.last_call }) q later in
      let old = granted-refuses r q later in
      elim (Bool-cases (node_id == q)) [
        | inl same ↦ rw same (new ∙ ap not (rw same at after))
        | inr other ↦ rw other (new ∙ ap not (rw other at after) ∙ sym old)
      ]

  -- A call is refused exactly if less than the cooldown has gone by since the call that is noted for
  -- the node, or since the start of the clock if there is none, and changes nothing then. After a call
  -- that is granted, one for the same node is granted exactly if the cooldown has gone by since, and
  -- one for another node exactly if it would have been before.
  pub try_acquire_lem :
      (r : RateLimiter) (node_id : String) (now : F)
      → ((lt
              (sub now (elim (get node_id r.last_call) [ none ↦ of_int (pos 0) | some t ↦ t ]))
              r.cooldown
            ≡ true)
          × (try_acquire r node_id now ≡ (false, r)))
        ⊎ ((lt
                (sub now (elim (get node_id r.last_call) [ none ↦ of_int (pos 0) | some t ↦ t ]))
                r.cooldown
              ≡ false)
            × ((r' : RateLimiter) × (try_acquire r node_id now ≡ (true, r'))
                × ((q : String) (later : F)
                    → (try_acquire r' q later).0 ≡ (
                        if node_id == q
                        then not (lt (sub later now) r.cooldown)
                        else (try_acquire r q later).0))))
  unfolding try_acquire refuses
  try_acquire_lem r node_id now = elim (Bool-cases (refuses r node_id now)) [
    | inl busy ↦ inl (busy, rw busy refl)
    | inr free ↦ inr (
      free,
      (
        record r { last_call = put node_id now r.last_call },
        rw free refl,
        λ q later. granted-put r node_id q now later,
      ),
    )
  ]
