-- ===== src/Stores/Jobs/Bounds.antt =====
-- The registry of jobs stays within its bound, with distinct keys and well-formed entries.
use solprobe.Prelude.{
  ℕ, ◌≤◌, ◌-◌, ◌≡◌, refl, String, true, Option, some, List, [], ◌∷◌, arith, length, length-append,
  ltb, ltb→lt, suc, sym, subst, drop-nil, string_eq, Bool-cases, Option-cases, inl, inr,
}
use solprobe.Prelude.Dict.{Dict, get, put, remove, keys}
use solprobe.Prelude.Dict.Order.{
  Distinct, Distinct-put, Distinct-remove-append, length-put_of_some, length-remove-lt, Items,
  Items-put, Items-remove, Items-append, Items-get,
}
use solprobe.Prelude.Ring.{take_last}
use solprobe.Prelude.Result.{ok, err, value_error, ok-injective}
use solprobe.Stores.Jobs.{
  Job, JobStore, known_status, register, update_status, touch, evict, new_job,
}

-- The eviction loop keeps the newest entries that fit.
pub evict-eq-take_last : (m : ℕ) (d : Dict String Job) → evict m d ≡ take_last m d
unfolding evict take_last
evict-eq-take_last m [] = sym (drop-nil (0 - m))
evict-eq-take_last m (entry ∷ rest) = elim (Bool-cases (ltb m (length (entry ∷ rest)))) [
  | inl over ↦
      let one : length (entry ∷ rest) - m ≡ suc (length rest - m) =
        omega (arith, ltb→lt m (length (entry ∷ rest)) over) in
      rw (over, one) (evict-eq-take_last m rest)
  | inr fits ↦
      let none_over : length (entry ∷ rest) - m ≡ 0 = ground arith in rw (fits, none_over) refl
]

length-evict-le : (m : ℕ) (d : Dict String Job) → length (evict m d) ≤ m
unfolding evict
length-evict-le m [] = omega arith
length-evict-le m (entry ∷ rest) = ground (arith, length-evict-le m rest)

abbrev pub IsEntry : String → Job → Type 0
IsEntry k j = (j.job_id ≡ k) × (known_status j.status ≡ true)

pub record IsValid (s : JobStore) : Type 0 where
  pub distinct : Distinct (keys s.jobs)
  pub bounded : length s.jobs ≤ s.max_size
  pub entries : Items IsEntry s.jobs

Distinct-evict : (m : ℕ) (d : Dict String Job) → Distinct (keys d) → Distinct (keys (evict m d))
unfolding evict
Distinct-evict m [] h = tt
Distinct-evict m (entry ∷ rest) h = ground (arith, Distinct-evict m rest h.1)

Items-evict : (m : ℕ) (d : Dict String Job) → Items IsEntry d → Items IsEntry (evict m d)
unfolding evict
Items-evict m [] h = tt
Items-evict m (entry ∷ rest) h = ground (arith, Items-evict m rest h.1)

-- Registering a job, for the first time or again, keeps a valid registry valid: its keys are
-- distinct, it is within its bound, and each entry has its key as id and a known status.
pub register-IsValid :
    (s : JobStore) (job_id : String) (config : Dict String String) (node_ids : List String)
    (name : Option String) (now : ℕ)
    → IsValid s
    → IsValid (register s job_id config node_ids name now)
unfolding register known_status
register-IsValid s job_id config node_ids name now v = elim (Option-cases (get job_id s.jobs)) [
  | inl e ↦
      rw (e, register)
        (record {
          distinct =
              Distinct-evict s.max_size _
                (Distinct-put job_id (new_job job_id config node_ids name now) s.jobs v.distinct);
          bounded = length-evict-le s.max_size _;
          entries =
              Items-evict s.max_size _ (Items-put IsEntry job_id _ s.jobs v.entries (refl, refl));
        })
  | inr (old, e) ↦
      let kept : Items IsEntry (remove job_id s.jobs) =
        Items-remove IsEntry job_id s.jobs v.entries in
      rw (e, register)
        (record {
          distinct = Distinct-remove-append job_id _ s.jobs v.distinct;
          bounded = omega (
            arith,
            v.bounded,
            length-remove-lt job_id old s.jobs e,
            length-append (remove job_id s.jobs) (_ ∷ []),
          );
          entries =
              Items-append IsEntry (remove job_id s.jobs) _ kept
                (Items-get IsEntry job_id old s.jobs v.entries e, tt);
        })
]

put-IsValid :
    (s : JobStore) (k : String) (old new : Job)
    → IsValid s
    → get k s.jobs ≡ some old
    → IsEntry k new
    → IsValid (record s { jobs = put k new s.jobs })
put-IsValid s k old new v e p = record {
  distinct = Distinct-put k new s.jobs v.distinct;
  bounded = omega (arith, v.bounded, length-put_of_some k new old s.jobs e);
  entries = Items-put IsEntry k new s.jobs v.entries p;
}

-- The registry that `update_status` returns, where it returns one, is valid if the old one was.
pub update_status-IsValid :
    (s t : JobStore) (job_id status : String) (now : ℕ)
    → IsValid s
    → update_status s job_id status now ≡ ok t
    → IsValid t
unfolding update_status
update_status-IsValid s t job_id status now v h = elim (Bool-cases (known_status status)) [
  | inl known ↦ elim (Option-cases (get job_id s.jobs)) [
    | inl e ↦ subst IsValid (ok-injective (rw (known, e, update_status) at h)) v
    | inr (old, e) ↦ subst IsValid (ok-injective (rw (known, e, update_status) at h)) (
        put-IsValid s job_id old _ v e ((Items-get IsEntry job_id old s.jobs v.entries e).0, known))
  ]
  | inr unknown ↦ let refused : err value_error ≡ ok t = rw (unknown, update_status) at h in cc
]

pub touch-IsValid :
    (s : JobStore) (job_id : String) (now : ℕ) → IsValid s → IsValid (touch s job_id now)
unfolding touch
touch-IsValid s job_id now v = elim (Option-cases (get job_id s.jobs)) [
  | inl e ↦ rw (e, touch) v
  | inr (old, e) ↦
      rw (e, touch)
        (put-IsValid s job_id old _ v e (Items-get IsEntry job_id old s.jobs v.entries e))
]
