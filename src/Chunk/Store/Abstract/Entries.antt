-- ===== src/Chunk/Store/Abstract/Entries.antt =====
-- The entries of one chunk, as a query sees them.
use mathlib.Core.Path.{subst}
use frankenstein.Prelude.{
  ℕ, ◌+◌, ◌≡◌, refl, sym, ap, ◌∙◌, Bool, true, false, ◌&&◌, inl, inr, List, [], ◌∷◌, ◌++◌, Option,
  none, some, if◌then◌else◌, arith, All, All-append, Bool-cases,
}
use mathlib.Core.List.{append_assoc}
use frankenstein.Prelude.Int.{ℤ, same_ℤ, int_ord}
use frankenstein.Prelude.Order.{Text, text_ord}
use frankenstein.Prelude.Keyed.{count_key, count_key-append, ComesFrom}
use frankenstein.Prelude.Result.{Result, ok, err}
use frankenstein.Model.{Metric, LabelMatcher, metric_name_label}
use frankenstein.Chunk.Types.{Chunk, id_of}
use frankenstein.Chunk.Store.{Deps, WriteRequest, QueryInput, stored, only_id, hash_value}
use frankenstein.Chunk.Store.Index.{read_item, kept, label_writes, hour_writes}
use frankenstein.Chunk.Store.Abstract.{
  bare, within, is_selected, selected, passes, count_labels, shown, all_shown, Decodes, Includes,
  IsPlain, HasPlainLabels,
}

module _ {Time W : Type 0} (deps : Deps Time W) where
  pub all_shown-append :
      (matcher : Option LabelMatcher) (rs ss : List WriteRequest)
      → all_shown deps matcher (rs ++ ss) ≡ all_shown deps matcher rs ++ all_shown deps matcher ss
  all_shown-append matcher [] ss = refl
  all_shown-append matcher (r ∷ rs) ss =
      ap (◌++◌ (shown deps matcher r)) (all_shown-append matcher rs ss)
      ∙ sym (
          append_assoc (shown deps matcher r) (all_shown deps matcher rs)
            (all_shown deps matcher ss))

pub selected-append :
    (input : QueryInput) (rs ss : List WriteRequest)
    → selected input (rs ++ ss) ≡ selected input rs ++ selected input ss
selected-append input [] ss = refl
selected-append input (r ∷ rs) ss = elim (Bool-cases (is_selected input r)) [
  | inl e ↦ rw e (ap (◌∷◌ r) (selected-append input rs ss))
  | inr e ↦ rw e (selected-append input rs ss)
]

-- How often the hour counts: once for each time that a list has it.
abbrev pub per_hour : ℤ → ℕ → List ℤ → ℕ
per_hour hour n [] = 0
per_hour hour n (i ∷ hours) = (if same_ℤ i hour then n else 0) + per_hour hour n hours

module _ {Time W : Type 0} (deps : Deps Time W) (decodes : Decodes deps) (c : Chunk Time)
    (value : List ℕ) (unmarshals : deps.unmarshal value (only_id deps c.id) ≡ ok (bare c))
    (matcher : Option LabelMatcher) (input : QueryInput) (fits : Includes deps input.range matcher)
    (plain_id : IsPlain c.id) where
  abbrev seen : List WriteRequest → List (Chunk Time)
  seen rs = all_shown deps matcher (selected input rs)

  abbrev request : Text → Text → Text → WriteRequest
  request hash k v = record {
    hash_value = hash;
    range_value = deps.encode k v c.id;
    chunk_value = value;
  }

  read-request :
      (hash k v : Text)
      → IsPlain k
      → IsPlain v
      → read_item deps (stored (request hash k v)) ≡ ok (k, v, bare c)
  unfolding read_item
  read-request hash k v p q = rw (decodes k v c.id p q plain_id) (rw unmarshals)

  shown-request :
      (hash k v : Text)
      → IsPlain k
      → IsPlain v
      → shown deps matcher (request hash k v) ≡ kept deps matcher (k, v, bare c)
  shown-request hash k v p q =
      ap
        (λ (r : Result (Text × Text × Chunk Time)). elim r [
          | err e ↦ []
          | ok read ↦ kept deps matcher read
        ])
        (read-request hash k v p q)

  kept-passes :
      (matcher : Option LabelMatcher) (k v : Text)
      → text_ord.same k metric_name_label ≡ false
      → kept deps matcher (k, v, bare c) ≡ (if passes deps matcher k v then bare c ∷ [] else [])
  kept-passes none k v other = rw other refl
  kept-passes (some m) k v other = rw other (ground arith)

  selected-request :
      (hash k v : Text) (rest : List WriteRequest)
      → IsPlain k
      → IsPlain v
      → is_selected input (request hash k v) ≡ true
      → text_ord.same k metric_name_label ≡ false
      → seen (request hash k v ∷ rest)
        ≡ (if passes deps matcher k v then bare c ∷ seen rest else seen rest)
  selected-request hash k v rest pk pv e other = rw e (
      ap (λ xs. xs ++ seen rest) (shown-request hash k v pk pv ∙ kept-passes matcher k v other)
      ∙ elim (Bool-cases (passes deps matcher k v)) [ inl p ↦ rw p refl | inr p ↦ rw p refl ])

  seen-request :
      (hash k v : Text) (rest : List WriteRequest)
      → IsPlain k
      → IsPlain v
      → text_ord.same k metric_name_label ≡ false
      → seen (request hash k v ∷ rest) ≡ (
          if text_ord.same hash input.hash_value && passes deps matcher k v
          then bare c ∷ seen rest
          else seen rest)
  seen-request hash k v rest pk pv other = elim (Bool-cases (text_ord.same hash input.hash_value)) [
    | inr e ↦ rw e refl
    | inl e ↦ elim (Bool-cases (within input.range (deps.encode k v c.id))) [
      | inl f ↦ selected-request hash k v rest pk pv (cc (e, f)) other ∙ rw e refl
      | inr f ↦ rw (e, f) (rw (missed k v pk pv f) refl)
    ]
  ]
    where
      missed :
          (k v : Text)
          → IsPlain k
          → IsPlain v
          → within input.range (deps.encode k v c.id) ≡ false
          → passes deps matcher k v ≡ false
      missed k v pk pv f = elim (Bool-cases (passes deps matcher k v)) [
        | inl p ↦ cc (fits k v c.id pk pv plain_id p, f)
        | inr p ↦ p
      ]

  -- The entries of some labels under a hash, by what they put into the chunk set.
  seen-label_writes :
      (hash : Text) (metric : Metric) (k : Text)
      → HasPlainLabels metric
      → count_key id_of k (seen (label_writes deps hash c.id value metric)) ≡ (
          if text_ord.same c.id k
          then (if text_ord.same hash input.hash_value then count_labels deps matcher metric else 0)
          else 0)
  unfolding label_writes count_key
  seen-label_writes hash [] k h = ground arith
  seen-label_writes hash ((l, v) ∷ metric) k plain =
      elim (Bool-cases (text_ord.same l metric_name_label)) [
        | inl name ↦ rw name (seen-label_writes hash metric k plain.1 ∙ ground arith)
        | inr other ↦
            rw
              (ap
                (λ b.
                  if b
                  then label_writes deps hash c.id value metric
                  else request hash l v ∷ label_writes deps hash c.id value metric)
                other)
              (ap (count_key id_of k) (
                  seen-request hash l v (label_writes deps hash c.id value metric) plain.0.0
                    plain.0.1 other)
                ∙ counted (seen-label_writes hash metric k plain.1))
      ]
    where
      counted :
          count_key id_of k (seen (label_writes deps hash c.id value metric)) ≡ (
            if text_ord.same c.id k
            then (if text_ord.same hash input.hash_value
                then count_labels deps matcher metric
                else 0)
            else 0)
          → count_key id_of k (
              if text_ord.same hash input.hash_value && passes deps matcher l v
              then bare c ∷ seen (label_writes deps hash c.id value metric)
              else seen (label_writes deps hash c.id value metric))
            ≡ (if text_ord.same c.id k
                then (if text_ord.same hash input.hash_value
                    then (if passes deps matcher l v then 1 else 0)
                      + count_labels deps matcher metric
                    else 0)
                else 0)
      counted ih = elim (Bool-cases (text_ord.same hash input.hash_value)) [
        | inr e ↦ rw e (ih ∙ rw e refl)
        | inl e ↦ elim (Bool-cases (passes deps matcher l v)) [
          | inl p ↦ rw (e, p) (ground (arith, ih, e))
          | inr p ↦ rw (e, p) (ih ∙ rw e (ground arith))
        ]
      ]

  -- Every chunk that they show comes from the chunk.
  label_writes-ComesFrom :
      (f : Text → Option (Chunk Time)) (hash : Text) (metric : Metric)
      → HasPlainLabels metric
      → ComesFrom id_of f (bare c)
      → All (ComesFrom id_of f) (seen (label_writes deps hash c.id value metric))
  unfolding label_writes
  label_writes-ComesFrom f hash [] plain h = tt
  label_writes-ComesFrom f hash ((l, v) ∷ metric) plain h =
      elim (Bool-cases (text_ord.same l metric_name_label)) [
        | inl name ↦ rw name (label_writes-ComesFrom f hash metric plain.1 h)
        | inr other ↦ rw other (
            subst (All (ComesFrom id_of f))
              (sym (
                seen-request hash l v (label_writes deps hash c.id value metric) plain.0.0 plain.0.1
                  other))
              (both_ways (text_ord.same hash input.hash_value && passes deps matcher l v)
                (label_writes-ComesFrom f hash metric plain.1 h)))
      ]
    where
      both_ways :
          (b : Bool)
          → All (ComesFrom id_of f) (seen (label_writes deps hash c.id value metric))
          → All (ComesFrom id_of f) (
              if b
              then bare c ∷ seen (label_writes deps hash c.id value metric)
              else seen (label_writes deps hash c.id value metric))
      both_ways true a = (h, a)
      both_ways false a = a

  module _ (user_id name asked : Text) (hour : ℤ)
      (at_hash : input.hash_value ≡ hash_value deps user_id hour asked)
      (hashes : (i : ℤ) (n : Text)
        → text_ord.same (hash_value deps user_id i n) (hash_value deps user_id hour asked)
          ≡ (same_ℤ i hour && text_ord.same n asked)) where
    -- The entries of a chunk over hours.
    pub seen-hour_writes :
        (hours : List ℤ) (k : Text)
        → HasPlainLabels c.metric
        → count_key id_of k (seen (hour_writes deps user_id name c value hours)) ≡ (
            if text_ord.same c.id k
            then (if text_ord.same name asked
                then per_hour hour (count_labels deps matcher c.metric) hours
                else 0)
            else 0)
    unfolding hour_writes count_key
    seen-hour_writes [] k plain = ground arith
    seen-hour_writes (i ∷ hours) k plain =
        let here = label_writes deps (hash_value deps user_id i name) c.id value c.metric in
        let later = hour_writes deps user_id name c value hours in
        ap (λ rs. count_key id_of k (all_shown deps matcher rs)) (selected-append input here later)
        ∙ ap (count_key id_of k)
            (all_shown-append deps matcher (selected input here) (selected input later))
        ∙ count_key-append id_of k (seen here) (seen later)
        ∙ ground (
          arith,
          seen-label_writes (hash_value deps user_id i name) c.metric k plain,
          seen-hour_writes hours k plain,
          at_hash,
          hashes i name,
        )

    pub hour_writes-ComesFrom :
        (f : Text → Option (Chunk Time)) (hours : List ℤ)
        → HasPlainLabels c.metric
        → ComesFrom id_of f (bare c)
        → All (ComesFrom id_of f) (seen (hour_writes deps user_id name c value hours))
    unfolding hour_writes
    hour_writes-ComesFrom f [] plain h = tt
    hour_writes-ComesFrom f (i ∷ hours) plain h =
        let here = label_writes deps (hash_value deps user_id i name) c.id value c.metric in
        let later = hour_writes deps user_id name c value hours in
        subst (All (ComesFrom id_of f))
          (sym (
            ap (all_shown deps matcher) (selected-append input here later)
            ∙ all_shown-append deps matcher (selected input here) (selected input later)))
          (All-append (ComesFrom id_of f) (seen here) (seen later)
            (label_writes-ComesFrom f (hash_value deps user_id i name) c.metric plain h)
            (hour_writes-ComesFrom f hours plain h))
