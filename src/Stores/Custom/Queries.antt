-- ===== src/Stores/Custom/Queries.antt =====
-- What the queries of the custom-metric store return.
use mathlib.Core.List.{Mem, Perm, mem-cons_self, not-mem-nil}
use mathlib.Core.List.Perm
use solprobe.Prelude.{
  ℕ, zero, suc, ◌≤◌, ◌≡◌, refl, ap, ◌∙◌, String, Option, none, some, List, [], ◌∷◌, ◌++◌, foldl,
  arith, ◌==◌, string_eq, pair_eq, pair_beq_iff, if◌then◌else◌, leb, length, take, head?, All,
  Bool-cases, ◌⊎◌, inl, inr, take-append-drop, length-take-eq, drop-eq-nil, drop, leb→le, Bool,
  true, false, ◌&&◌, contains, filter_by, filter_by-append, sym, subst, Option-cases,
}
use solprobe.Prelude.Dict.{Dict, get, get-put}
use solprobe.Prelude.Dict.Order.{Items, Items-put, Items-get}
use solprobe.Prelude.Ring.{push, All-push, take_last, foldl-push_empty}
use solprobe.Models.Metrics.{CustomMetric}
use solprobe.Stores.Custom.{
  CustomStore, Key, key_of, buffer_of, add, candidates, insert_newest, sort_newest, query,
  get_latest, admits, names_of,
}

abbrev is_key : Option String → String → Bool
is_key none x = true
is_key (some f) x = x == f

admits-is_key : (o : Option String) (x : String) → admits o x ≡ is_key o x
unfolding admits
admits-is_key none x = refl
admits-is_key (some f) x = refl

module _ {F : Type 0} where
  insert_newest-perm :
      (m : CustomMetric F) (xs : List (CustomMetric F)) → Perm (insert_newest m xs) (m ∷ xs)
  unfolding insert_newest
  insert_newest-perm m [] = Perm.refl (m ∷ [])
  insert_newest-perm m (x ∷ xs) = elim (Bool-cases (leb x.timestamp_ms m.timestamp_ms)) [
    | inl here ↦ rw here (Perm.refl (m ∷ x ∷ xs))
    | inr later ↦ rw later (Perm.trans (Perm.cons x (insert_newest-perm m xs)) (Perm.swap m x xs))
  ]

  -- Sorting loses and invents no sample.
  sort_newest-perm : (xs : List (CustomMetric F)) → Perm (sort_newest xs) xs
  unfolding sort_newest
  sort_newest-perm [] = Perm.nil
  sort_newest-perm (x ∷ xs) =
      Perm.trans (insert_newest-perm x (sort_newest xs)) (Perm.cons x (sort_newest-perm xs))

  abbrev pub UpTo : ℕ → List (CustomMetric F) → Type 0
  UpTo t = All (λ m. m.timestamp_ms ≤ t)

  UpTo-mono : {s t : ℕ} (xs : List (CustomMetric F)) → s ≤ t → UpTo s xs → UpTo t xs
  UpTo-mono [] h a = tt
  UpTo-mono (x ∷ xs) h a = (omega arith, UpTo-mono xs h a.1)

  -- Newest first: no sample is newer than one before it.
  abbrev pub NewestFirst : List (CustomMetric F) → Type 0
  NewestFirst [] = Unit
  NewestFirst (x ∷ xs) = UpTo x.timestamp_ms xs × NewestFirst xs

  UpTo-insert_newest :
      (t : ℕ) (m : CustomMetric F) (xs : List (CustomMetric F))
      → m.timestamp_ms ≤ t
      → UpTo t xs
      → UpTo t (insert_newest m xs)
  unfolding insert_newest
  UpTo-insert_newest t m [] h a = (h, tt)
  UpTo-insert_newest t m (x ∷ xs) h a = ground (arith, UpTo-insert_newest t m xs h a.1)

  NewestFirst-insert_newest :
      (m : CustomMetric F) (xs : List (CustomMetric F))
      → NewestFirst xs
      → NewestFirst (insert_newest m xs)
  unfolding insert_newest
  NewestFirst-insert_newest m [] s = (tt, tt)
  NewestFirst-insert_newest m (x ∷ xs) s = elim (Bool-cases (leb x.timestamp_ms m.timestamp_ms)) [
    | inl here ↦
        let older : x.timestamp_ms ≤ m.timestamp_ms = ground arith in
        rw here ((older, UpTo-mono xs older s.0), s)
    | inr later ↦ rw later (
      UpTo-insert_newest x.timestamp_ms m xs (ground arith) s.0,
      NewestFirst-insert_newest m xs s.1,
    )
  ]

  NewestFirst-sort_newest : (xs : List (CustomMetric F)) → NewestFirst (sort_newest xs)
  unfolding sort_newest
  NewestFirst-sort_newest [] = tt
  NewestFirst-sort_newest (x ∷ xs) =
      NewestFirst-insert_newest x (sort_newest xs) (NewestFirst-sort_newest xs)

  UpTo-take : (t n : ℕ) (xs : List (CustomMetric F)) → UpTo t xs → UpTo t (take n xs)
  UpTo-take t zero xs a = tt
  UpTo-take t (suc n) [] a = tt
  UpTo-take t (suc n) (x ∷ xs) a = (a.0, UpTo-take t n xs a.1)

  NewestFirst-take : (n : ℕ) (xs : List (CustomMetric F)) → NewestFirst xs → NewestFirst (take n xs)
  NewestFirst-take zero xs s = tt
  NewestFirst-take (suc n) [] s = tt
  NewestFirst-take (suc n) (x ∷ xs) s = (UpTo-take _ n xs s.0, NewestFirst-take n xs s.1)

  UpTo-uninsert :
      (t : ℕ) (m : CustomMetric F) (xs : List (CustomMetric F))
      → UpTo t (insert_newest m xs)
      → (m.timestamp_ms ≤ t) × UpTo t xs
  unfolding insert_newest
  UpTo-uninsert t m [] a = a
  UpTo-uninsert t m (x ∷ xs) a = elim (Bool-cases (leb x.timestamp_ms m.timestamp_ms)) [
    | inl here ↦ rw here at a
    | inr later ↦
        let b : (x.timestamp_ms ≤ t) × UpTo t (insert_newest m xs) = rw later at a in
        let c = UpTo-uninsert t m xs b.1 in (c.0, (b.0, c.1))
  ]

  UpTo-unsort : (t : ℕ) (xs : List (CustomMetric F)) → UpTo t (sort_newest xs) → UpTo t xs
  unfolding sort_newest
  UpTo-unsort t [] a = tt
  UpTo-unsort t (x ∷ xs) a =
      let b = UpTo-uninsert t x (sort_newest xs) a in (b.0, UpTo-unsort t xs b.1)

  -- The result of a search for the newest of `all`: none if there is none, and otherwise one of them
  -- that no other is newer than.
  abbrev pub IsNewest : List (CustomMetric F) → Option (CustomMetric F) → Type 0
  IsNewest all r =
      ((all ≡ []) × (r ≡ none))
      ⊎ ((m : CustomMetric F) × (r ≡ some m) × Mem m all × UpTo m.timestamp_ms all)

  head?-IsNewest :
      (all ys : List (CustomMetric F))
      → Perm ys all
      → NewestFirst ys
      → ((t : ℕ) → UpTo t ys → UpTo t all)
      → IsNewest all (head? (take 1 ys))
  head?-IsNewest [] [] p s u = inl (refl, refl)
  head?-IsNewest (x ∷ xs) [] p s u = absurd (not-mem-nil ((Perm.mem_iff p).1 mem-cons_self))
  head?-IsNewest all (y ∷ ys) p s u =
      inr (y, refl, (Perm.mem_iff p).0 mem-cons_self, u y.timestamp_ms (omega arith, s.0))

  -- The latest sample of a metric is, among the samples with its name and the given job and node,
  -- one that no other is newer than, and there is none only if no sample matches.
  pub get_latest-IsNewest :
      (s : CustomStore F) (name : String) (job_id node_id : Option String)
      → IsNewest
          (candidates (some name) job_id node_id s.buffers)
          (get_latest s name job_id node_id)
  unfolding get_latest
  get_latest-IsNewest s name job_id node_id =
      let found : List (CustomMetric F) = candidates (some name) job_id node_id s.buffers in
      head?-IsNewest found (sort_newest found) (sort_newest-perm found)
        (NewestFirst-sort_newest found) (λ t. UpTo-unsort t found)

  buffer-add :
      (s : CustomStore F) (m : CustomMetric F) (k : Key)
      → buffer_of (get k (add s m).buffers) ≡ (
          if ◌==◌ {A = Key} (key_of m) k
          then push s.max_per_key (buffer_of (get k s.buffers)) m
          else buffer_of (get k s.buffers))
  unfolding add
  buffer-add s m k =
      let new : List (CustomMetric F) =
        push s.max_per_key (buffer_of (get (key_of m) s.buffers)) m in
      elim (Bool-cases (◌==◌ {A = Key} (key_of m) k)) [
        | inl same ↦
            rw (get-put (key_of m) k new s.buffers, same)
              (ap (λ (j : Key). push s.max_per_key (buffer_of (get j s.buffers)) m)
                ((pair_beq_iff (key_of m) k).0 same))
        | inr other ↦ rw (get-put (key_of m) k new s.buffers, other) refl
      ]

  pub add_all : CustomStore F → List (CustomMetric F) → CustomStore F
  add_all s [] = s
  add_all s (m ∷ ms) = add_all (add s m) ms

  pub samples_of : Key → List (CustomMetric F) → List (CustomMetric F)
  samples_of k [] = []
  samples_of k (m ∷ ms) =
      if ◌==◌ {A = Key} (key_of m) k then m ∷ samples_of k ms else samples_of k ms

  buffer-add_all :
      (s : CustomStore F) (ms : List (CustomMetric F)) (k : Key)
      → buffer_of (get k (add_all s ms).buffers)
        ≡ foldl (push s.max_per_key) (buffer_of (get k s.buffers)) (samples_of k ms)
  unfolding add_all samples_of add
  buffer-add_all s [] k = refl
  buffer-add_all s (m ∷ ms) k = elim (Bool-cases (◌==◌ {A = Key} (key_of m) k)) [
    | inl same ↦ rw same (
        buffer-add_all (add s m) ms k
        ∙ ap (λ r. foldl (push s.max_per_key) r (samples_of k ms)) (rw same at (buffer-add s m k)))
    | inr other ↦ rw other (
        buffer-add_all (add s m) ms k
        ∙ ap (λ r. foldl (push s.max_per_key) r (samples_of k ms)) (rw other at (buffer-add s m k)))
  ]

  abbrev pub empty_custom : ℕ → CustomStore F
  empty_custom m = record { buffers = []; max_per_key = m }

  -- After any additions to an empty store, each (name, job) holds exactly the newest samples of that
  -- name and job, as many as fit.
  pub buffer-add_all-eq-take_last :
      (m : ℕ) (ms : List (CustomMetric F)) (k : Key)
      → buffer_of (get k (add_all (empty_custom m) ms).buffers) ≡ take_last m (samples_of k ms)
  unfolding get
  buffer-add_all-eq-take_last m ms k =
      buffer-add_all (empty_custom m) ms k ∙ foldl-push_empty m (samples_of k ms)

  -- Whether a sample has the name, the job and the node that are asked for; what is not asked for may
  -- be any.
  abbrev pub is_asked : Option String → Option String → Option String → CustomMetric F → Bool
  is_asked name job_id node_id m =
      is_key name m.name && (is_key job_id m.job_id && is_key node_id m.node_id)

  -- All samples of some buffers, whatever their keys.
  abbrev pub all_samples : Dict Key (List (CustomMetric F)) → List (CustomMetric F)
  all_samples [] = []
  all_samples ((k, buf) ∷ d) = buf ++ all_samples d

  abbrev pub stored_samples : CustomStore F → List (CustomMetric F)
  stored_samples s = all_samples s.buffers

  -- Every sample stands in the buffer of its name and job.
  abbrev Keyed : Key → List (CustomMetric F) → Type 0
  Keyed k = All (λ m. (m.name ≡ k.0) × (m.job_id ≡ k.1))

  Keyed-buffer :
      (s : CustomStore F) (k : Key) → Items Keyed s.buffers → Keyed k (buffer_of (get k s.buffers))
  Keyed-buffer s k h = elim (Option-cases (get k s.buffers)) [
    | inl e ↦ subst (λ o. Keyed k (buffer_of o)) (sym e) tt
    | inr (buf, e) ↦
        subst (λ o. Keyed k (buffer_of o)) (sym e) (Items-get Keyed k buf s.buffers h e)
  ]

  Keyed-add :
      (s : CustomStore F) (m : CustomMetric F)
      → Items Keyed s.buffers
      → Items Keyed (add s m).buffers
  unfolding add
  Keyed-add s m h =
      Items-put Keyed (key_of m) (push s.max_per_key (buffer_of (get (key_of m) s.buffers)) m)
        s.buffers h
        (All-push (λ x. (x.name ≡ m.name) × (x.job_id ≡ m.job_id)) s.max_per_key
          (buffer_of (get (key_of m) s.buffers)) m (Keyed-buffer s (key_of m) h) (refl, refl))

  Keyed-add_all :
      (s : CustomStore F) (ms : List (CustomMetric F))
      → Items Keyed s.buffers
      → Items Keyed (add_all s ms).buffers
  unfolding add_all
  Keyed-add_all s [] h = h
  Keyed-add_all s (m ∷ ms) h = Keyed-add_all (add s m) ms (Keyed-add s m h)

  -- In the buffer of a key, only the node is left to ask for.
  is_asked-Keyed :
      (name job_id node_id : Option String) (k : Key) (m : CustomMetric F)
      → (m.name ≡ k.0) × (m.job_id ≡ k.1)
      → is_asked name job_id node_id m
        ≡ (admits name k.0 && admits job_id k.1 && admits node_id m.node_id)
  is_asked-Keyed name job_id node_id k m (same_name, same_job) =
      let n = ap (is_key name) same_name ∙ sym (admits-is_key name k.0) in
      let j = ap (is_key job_id) same_job ∙ sym (admits-is_key job_id k.1) in
      let o = sym (admits-is_key node_id m.node_id) in ground (arith, n, j, o)

  filter_by-Keyed-hit :
      (name job_id node_id : Option String) (k : Key) (buf : List (CustomMetric F))
      → Keyed k buf
      → admits name k.0 && admits job_id k.1 ≡ true
      → filter_by (λ m. admits node_id m.node_id) buf ≡ filter_by (is_asked name job_id node_id) buf
  filter_by-Keyed-hit name job_id node_id k [] h hit = refl
  filter_by-Keyed-hit name job_id node_id k (m ∷ buf) (here, h) hit =
      let asked = is_asked-Keyed name job_id node_id k m here in
      let later = filter_by-Keyed-hit name job_id node_id k buf h hit in
      ground (arith, asked, later)

  filter_by-Keyed-miss :
      (name job_id node_id : Option String) (k : Key) (buf : List (CustomMetric F))
      → Keyed k buf
      → admits name k.0 && admits job_id k.1 ≡ false
      → filter_by (is_asked name job_id node_id) buf ≡ []
  filter_by-Keyed-miss name job_id node_id k [] h miss = refl
  filter_by-Keyed-miss name job_id node_id k (m ∷ buf) (here, h) miss =
      let asked = is_asked-Keyed name job_id node_id k m here in
      let later = filter_by-Keyed-miss name job_id node_id k buf h miss in
      ground (arith, asked, later)

  candidates-asked :
      (name job_id node_id : Option String) (d : Dict Key (List (CustomMetric F)))
      → Items Keyed d
      → candidates name job_id node_id d ≡ filter_by (is_asked name job_id node_id) (all_samples d)
  unfolding candidates
  candidates-asked name job_id node_id [] h = refl
  candidates-asked name job_id node_id ((k, buf) ∷ d) (here, h) =
      let split = filter_by-append (is_asked name job_id node_id) buf (all_samples d) in
      let later = candidates-asked name job_id node_id d h in
      elim (Bool-cases (admits name k.0 && admits job_id k.1)) [
        | inl hit ↦
            let found = filter_by-Keyed-hit name job_id node_id k buf here hit in
            rw hit (rw (found, later) (sym split))
        | inr miss ↦
            let nothing = filter_by-Keyed-miss name job_id node_id k buf here miss in
            rw miss (
              later
              ∙ sym (
                  split
                  ∙ ap (λ l. l ++ filter_by (is_asked name job_id node_id) (all_samples d))
                      nothing))
      ]

  -- After any additions to an empty store, what a query returns is the beginning of an arrangement,
  -- newest first, of all stored samples with the given name, job and node; it is as long as the limit,
  -- or it is the whole arrangement.
  pub query_lem :
      (m : ℕ) (ms : List (CustomMetric F)) (name job_id node_id : Option String) (limit : ℕ)
      → (rest : List (CustomMetric F)) × Perm
          (query (add_all (empty_custom m) ms) name job_id node_id limit ++ rest)
          (filter_by (is_asked name job_id node_id) (stored_samples (add_all (empty_custom m) ms)))
        × NewestFirst (query (add_all (empty_custom m) ms) name job_id node_id limit ++ rest)
        × ((length (query (add_all (empty_custom m) ms) name job_id node_id limit) ≡ limit)
            ⊎ (rest ≡ []))
  unfolding query
  query_lem m ms name job_id node_id limit =
      let s = add_all (empty_custom m) ms in
      let found : List (CustomMetric F) = candidates name job_id node_id s.buffers in
      let asked =
        candidates-asked name job_id node_id s.buffers (Keyed-add_all (empty_custom m) ms tt) in
      let whole = take-append-drop limit (sort_newest found) in
      (
        drop limit (sort_newest found),
        subst (Perm (query s name job_id node_id limit ++ drop limit (sort_newest found))) asked
            (rw whole (sort_newest-perm found)),
        rw whole (NewestFirst-sort_newest found),
        elim (Bool-cases (leb limit (length (sort_newest found)))) [
          | inl many ↦ inl (length-take-eq limit (sort_newest found) (leb→le _ _ many))
          | inr few ↦ inr (drop-eq-nil limit (sort_newest found) (ground arith))
        ],
      )

  -- some buffer of the job has the name
  abbrev named : Option String → String → Dict Key (List (CustomMetric F)) → Bool
  named job_id n [] = false
  named job_id n ((k, buf) ∷ d) = if n == k.0 && admits job_id k.1 then true else named job_id n d

  -- The names of a job are the names of its buffers.
  contains-names_of :
      (job_id : Option String) (n : String) (d : Dict Key (List (CustomMetric F)))
      → contains (names_of job_id d) n ≡ named job_id n d
  unfolding names_of
  contains-names_of job_id n [] = refl
  contains-names_of job_id n ((k, buf) ∷ d) =
      let rest = contains-names_of job_id n d in
      elim (Bool-cases (admits job_id k.1)) [
        | inr other ↦ elim (Bool-cases (n == k.0)) [
          | inl same ↦ rw (other, same) rest
          | inr different ↦ rw (other, different) rest
        ]
        | inl mine ↦ elim (Bool-cases (contains (names_of job_id d) k.0)) [
          | inl known ↦ elim (Bool-cases (n == k.0)) [
            | inl same ↦
                rw (mine, known, same)
                  (ap (contains (names_of job_id d)) ((string_eq.same_iff n k.0).0 same) ∙ known)
            | inr different ↦ rw (mine, known, different) rest
          ]
          | inr fresh ↦ elim (Bool-cases (n == k.0)) [
            | inl same ↦ rw (mine, fresh, same) refl
            | inr different ↦ rw (mine, fresh, different) rest
          ]
        ]
      ]
