-- ===== src/Chunk/Store/Abstract/Filed.antt =====
-- What `calculateDynamoWrites` has put into the index for a list of chunks, and how a query sees it.
use mathlib.Core.Path.{subst}
use frankenstein.Prelude.{
  ℕ, ◌+◌, ◌≡◌, refl, sym, ap, ◌∙◌, List, [], ◌∷◌, ◌++◌, Option, none, some, if◌then◌else◌, All,
  All-append, All-map, ◌&&◌, Member, All-Member,
}
use frankenstein.Prelude.Int.{ℤ, same_ℤ}
use frankenstein.Prelude.Order.{Text, text_ord}
use frankenstein.Prelude.Dict.{lookup}
use frankenstein.Prelude.Keyed.{count_key, count_key-append, ComesFrom}
use frankenstein.Prelude.Result.{Result, ok, err, ◌>>=◌, no_metric_name_label}
use frankenstein.Model.{LabelMatcher, metric_name_label}
use frankenstein.Chunk.Types.{Chunk, id_of}
use frankenstein.Chunk.Buckets.{big_buckets}
use frankenstein.Chunk.Store.{Deps, WriteRequest, QueryInput, stored, only_id, hash_value}
use frankenstein.Chunk.Store.Index.{
  read_item, or_fail, hour_writes, chunk_writes, calculate_dynamo_writes,
}
use frankenstein.Chunk.Store.RoundTrip.{hour_writes-ReadsBack}
use frankenstein.Chunk.Store.Abstract.{
  bare, selected, count_labels, all_shown, Decodes, IsPlain, HasPlainLabels, Includes,
}
use frankenstein.Chunk.Store.Abstract.Entries.{
  all_shown-append, selected-append, per_hour, seen-hour_writes, hour_writes-ComesFrom,
}

module _ {Time W : Type 0} (deps : Deps Time W) (user_id : Text) where
  -- The entries of chunks: each chunk has a name and its JSON.
  abbrev pub Filed : List (Chunk Time) → List WriteRequest → Type 0
  Filed [] db = db ≡ []
  Filed (c ∷ cs) db =
      (name : Text) × (value : List ℕ) × (rest : List WriteRequest) × (lookup metric_name_label
          c.metric
        ≡ some name)
      × (deps.marshal c ≡ ok value)
      × (db
          ≡ hour_writes deps user_id name c value (big_buckets deps.unix c.from c.through) ++ rest)
      × Filed cs rest

  chunk_writes-ok :
      (c : Chunk Time) (reqs : List WriteRequest)
      → chunk_writes deps user_id c ≡ ok reqs
      → (name : Text) × (value : List ℕ) × (lookup metric_name_label c.metric ≡ some name)
        × (deps.marshal c ≡ ok value)
        × (reqs ≡ hour_writes deps user_id name c value (big_buckets deps.unix c.from c.through))
  unfolding chunk_writes
  chunk_writes-ok c reqs h = go (lookup metric_name_label c.metric) (deps.marshal c) h refl refl
    where
      go :
          (o : Option Text) (r : Result (List ℕ))
          → (or_fail o no_metric_name_label >>= λ name. r >>= λ value.
              ok (hour_writes deps user_id name c value (big_buckets deps.unix c.from c.through)))
            ≡ ok reqs
          → lookup metric_name_label c.metric ≡ o
          → deps.marshal c ≡ r
          → (name : Text) × (value : List ℕ) × (lookup metric_name_label c.metric ≡ some name)
            × (deps.marshal c ≡ ok value)
            × (reqs
                ≡ hour_writes deps user_id name c value (big_buckets deps.unix c.from c.through))
      go none r g p q = cc
      go (some name) (err e) g p q = cc
      go (some name) (ok value) g p q = (name, value, p, q, cc)

  pub calculate_dynamo_writes-Filed :
      (cs : List (Chunk Time)) (db : List WriteRequest)
      → calculate_dynamo_writes deps user_id cs ≡ ok db
      → Filed cs db
  unfolding calculate_dynamo_writes
  calculate_dynamo_writes-Filed [] db h = cc
  calculate_dynamo_writes-Filed (c ∷ cs) db h =
      go (chunk_writes deps user_id c) (calculate_dynamo_writes deps user_id cs) h refl
        (calculate_dynamo_writes-Filed cs)
    where
      go :
          (r : Result (List WriteRequest)) (s : Result (List WriteRequest))
          → (r >>= λ first. s >>= λ rest. ok (first ++ rest)) ≡ ok db
          → chunk_writes deps user_id c ≡ r
          → ((rest : List WriteRequest) → s ≡ ok rest → Filed cs rest)
          → Filed (c ∷ cs) db
      go (err e) s g p ih = cc
      go (ok first) (err e) g p ih = cc
      go (ok first) (ok rest) g p ih =
          let (name, value, named, marshals, e) = chunk_writes-ok c first p in
          (name, value, rest, named, marshals, cc (g, e), ih rest refl)

-- The chunk's JSON is read back: it has no bytes, and the ID is not in it.
abbrev pub IsReadable : {Time W : Type 0} → Deps Time W → Chunk Time → Type 0
IsReadable deps c =
    (value : List ℕ)
    → deps.marshal c ≡ ok value
    → deps.unmarshal value (only_id deps c.id) ≡ ok (bare c)

-- No text of a chunk that goes into a range value has a null byte.
abbrev pub HasPlainTexts : {Time : Type 0} → Chunk Time → Type 0
HasPlainTexts c = IsPlain c.id × HasPlainLabels c.metric

abbrev pub IsRead : {Time W : Type 0} → Deps Time W → WriteRequest → Type 0
IsRead {Time} deps r = (t : Text × Text × Chunk Time) × (read_item deps (stored r) ≡ ok t)

-- How many entries of chunks a query sees.
module _ {Time W : Type 0} (deps : Deps Time W) (asked : Text) (hour : ℤ)
    (matcher : Option LabelMatcher) where
  abbrev pub weight_of : Chunk Time → Option Text → ℕ
  weight_of c none = 0
  weight_of c (some name) =
      if text_ord.same name asked
      then per_hour hour (count_labels deps matcher c.metric)
          (big_buckets deps.unix c.from c.through)
      else 0

  abbrev pub weight : Chunk Time → ℕ
  weight c = weight_of c (lookup metric_name_label c.metric)

  abbrev pub weigh : Text → List (Chunk Time) → ℕ
  weigh k [] = 0
  weigh k (c ∷ cs) = (if text_ord.same c.id k then weight c else 0) + weigh k cs

module _ {Time W : Type 0} (deps : Deps Time W) (decodes : Decodes deps) (user_id : Text) where
  decodes_here :
      (c : Chunk Time)
      → HasPlainTexts c
      → (l v : Text) → Member (l, v) c.metric
      → deps.decode (deps.encode l v c.id) ≡ ok (l, v, c.id)
  decodes_here c (id, labels) l v m =
      let (pl, pv) =
        All-Member (λ (x : Text × Text). IsPlain x.0 × IsPlain x.1) c.metric labels m in
      decodes l v c.id pl pv id

  pub Filed-IsRead :
      (cs : List (Chunk Time)) (db : List WriteRequest)
      → All (IsReadable deps) cs
      → All HasPlainTexts cs
      → Filed deps user_id cs db
      → All (IsRead deps) db
  Filed-IsRead [] db u t f = subst (All (IsRead deps)) (sym f) tt
  Filed-IsRead (c ∷ cs) db u t (name, value, rest, named, marshals, e, f) =
      subst (All (IsRead deps)) (sym e) (
        All-append (IsRead deps) _ rest
          (All-map (λ r (l, m, back). ((l.0, l.1, bare c), back)) _
            (hour_writes-ReadsBack deps c value (decodes_here c t.0) (u.0 value marshals) user_id
              name (big_buckets deps.unix c.from c.through)))
          (Filed-IsRead cs rest u.1 t.1 f))

  module _ (asked : Text) (hour : ℤ) (matcher : Option LabelMatcher) (input : QueryInput)
      (fits : Includes deps input.range matcher)
      (at_hash : input.hash_value ≡ hash_value deps user_id hour asked)
      (hashes : (i : ℤ) (n : Text)
        → text_ord.same (hash_value deps user_id i n) (hash_value deps user_id hour asked)
          ≡ (same_ℤ i hour && text_ord.same n asked)) where
    abbrev pub seen : List WriteRequest → List (Chunk Time)
    seen rs = all_shown deps matcher (selected input rs)

    seen-append : (rs ss : List WriteRequest) → seen (rs ++ ss) ≡ seen rs ++ seen ss
    seen-append rs ss =
        ap (all_shown deps matcher) (selected-append input rs ss)
        ∙ all_shown-append deps matcher (selected input rs) (selected input ss)

    pub count_key-seen :
        (k : Text) (cs : List (Chunk Time)) (db : List WriteRequest)
        → All (IsReadable deps) cs
        → All HasPlainTexts cs
        → Filed deps user_id cs db
        → count_key id_of k (seen db) ≡ weigh deps asked hour matcher k cs
    unfolding count_key
    count_key-seen k [] db u t f = rw f refl
    count_key-seen k (c ∷ cs) db u t (name, value, rest, named, marshals, e, f) =
        let here = hour_writes deps user_id name c value (big_buckets deps.unix c.from c.through) in
        ap (λ rs. count_key id_of k (seen rs)) e
        ∙ ap (count_key id_of k) (seen-append here rest)
        ∙ count_key-append id_of k (seen here) (seen rest)
        ∙ rw
            (
              seen-hour_writes deps decodes c value (u.0 value marshals) matcher input fits t.0.0
                  user_id name asked hour at_hash hashes (big_buckets deps.unix c.from c.through) k
                  t.0.1,
              count_key-seen k cs rest u.1 t.1 f,
            )
            (ap (λ n. (if text_ord.same c.id k then n else 0) + weigh deps asked hour matcher k cs)
              (sym (ap (weight_of deps asked hour matcher c) named)))

    pub seen-ComesFrom :
        (g : Text → Option (Chunk Time)) (cs : List (Chunk Time)) (db : List WriteRequest)
        → All (IsReadable deps) cs
        → All HasPlainTexts cs
        → Filed deps user_id cs db
        → All (λ c. ComesFrom id_of g (bare c)) cs
        → All (ComesFrom id_of g) (seen db)
    seen-ComesFrom g [] db u t f a = rw f tt
    seen-ComesFrom g (c ∷ cs) db u t (name, value, rest, named, marshals, e, f) a =
        let here = hour_writes deps user_id name c value (big_buckets deps.unix c.from c.through) in
        subst (All (ComesFrom id_of g)) (sym (ap seen e ∙ seen-append here rest)) (
          All-append (ComesFrom id_of g) (seen here) (seen rest)
            (hour_writes-ComesFrom deps decodes c value (u.0 value marshals) matcher input fits
              t.0.0 user_id name asked hour at_hash hashes g
              (big_buckets deps.unix c.from c.through) t.0.1 a.0)
            (seen-ComesFrom g cs rest u.1 t.1 f a.1))
