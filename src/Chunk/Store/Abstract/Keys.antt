-- ===== src/Chunk/Store/Abstract/Keys.antt =====
-- chunk/chunk_store.go: the primary keys of index entries, for each of which DynamoDB keeps one item.
use mathlib.Core.Path.{subst}
use frankenstein.Prelude.{
  zero, suc, ◌≡◌, refl, sym, ap, ◌∙◌, inl, inr, Bool, false, ◌&&◌, List, [], ◌∷◌, ℕ, arith, All,
  All-append, All-map, Bool-cases,
}
use frankenstein.Prelude.Int.{ℤ, ◌≤ℤ◌, same_ℤ, next}
use frankenstein.Prelude.Order.{Text, text_ord}
use frankenstein.Prelude.Keyed.{count_key, count_of_head, IsDistinct, IsDistinct-tail}
use frankenstein.Prelude.Pairwise.{Pairwise, append-Pairwise}
use frankenstein.Prelude.Result.{ok}
use frankenstein.Model.{Metric, metric_name_label}
use frankenstein.Wire.RoundTrip.{IsMap, Lacks}
use frankenstein.Chunk.Types.{Chunk, id_of}
use frankenstein.Chunk.Store.{Deps, WriteRequest, hash_value}
use frankenstein.Chunk.Buckets.{hours_from, big_buckets}
use frankenstein.Chunk.Store.Index.{label_writes, hour_writes, calculate_dynamo_writes}
use frankenstein.Chunk.Store.Abstract.{IsPlain, HasPlainLabels, Decodes}
use frankenstein.Chunk.Store.Abstract.Filed.{HasPlainTexts, Filed, calculate_dynamo_writes-Filed}
use frankenstein.Chunk.Store.Abstract.Hash.{HasNoColon, same-hash_value}

-- The key of the table is the hash and the range value together.
abbrev pub has_same_key : WriteRequest → WriteRequest → Bool
has_same_key r s =
    text_ord.same r.hash_value s.hash_value && text_ord.same r.range_value s.range_value

abbrev pub AreApart : WriteRequest → WriteRequest → Type 0
AreApart r s = has_same_key r s ≡ false

apart_by_range : (r s : WriteRequest) → ¬ (r.range_value ≡ s.range_value) → AreApart r s
apart_by_range r s n = elim (Bool-cases (text_ord.same r.range_value s.range_value)) [
  | inl e ↦ absurd (n ((text_ord.same_iff r.range_value s.range_value).0 e))
  | inr e ↦ rw e (ground arith)
]

module _ {Time W : Type 0} (deps : Deps Time W) (decodes : Decodes deps) where
  -- An entry is for a label of the chunk with an ID.
  abbrev IsFor : Text → WriteRequest → Type 0
  IsFor id r =
      (l : Text) × (v : Text) × IsPlain l × IsPlain v × (r.range_value ≡ deps.encode l v id)

  encode-inj :
      (l v id k u jd : Text)
      → IsPlain l
      → IsPlain v
      → IsPlain id
      → IsPlain k
      → IsPlain u
      → IsPlain jd
      → deps.encode l v id ≡ deps.encode k u jd
      → (l ≡ k) × (id ≡ jd)
  encode-inj l v id k u jd pl pv pid pk pu pjd e =
      let d : deps.decode (deps.encode k u jd) ≡ ok (l, v, id) =
        sym (ap deps.decode e) ∙ decodes l v id pl pv pid in
      let f = decodes k u jd pk pu pjd in (cc (d, f), cc (d, f))

  apart_by_id :
      (r s : WriteRequest) (id jd : Text)
      → IsPlain id
      → IsPlain jd
      → text_ord.same id jd ≡ false
      → IsFor id r
      → IsFor jd s
      → AreApart r s
  apart_by_id r s id jd p q n (l, v, pl, pv, e) (k, u, pk, pu, f) = apart_by_range r s (λ h.
      let same = encode-inj l v id k u jd pl pv p pk pu q (sym e ∙ h ∙ f) in
      cc ((text_ord.same_iff id jd).1 same.1, n))

  module _ (id : Text) (plain_id : IsPlain id) (value : List ℕ) where
    abbrev entry : Text → Text → Text → WriteRequest
    entry hash k u = record {
      hash_value = hash;
      range_value = deps.encode k u id;
      chunk_value = value;
    }

    label_writes-IsFor :
        (hash : Text) (metric : Metric)
        → HasPlainLabels metric
        → All (λ r. (r.hash_value ≡ hash) × IsFor id r) (label_writes deps hash id value metric)
    unfolding label_writes
    label_writes-IsFor hash [] p = tt
    label_writes-IsFor hash ((l, v) ∷ metric) p =
        elim (Bool-cases (text_ord.same l metric_name_label)) [
          | inl e ↦ rw e (label_writes-IsFor hash metric p.1)
          | inr e ↦ rw e ((refl, (l, v, p.0.0, p.0.1, refl)), label_writes-IsFor hash metric p.1)
        ]

    label_writes-lacking :
        (hash : Text) (k u : Text) (metric : Metric)
        → IsPlain k
        → IsPlain u
        → Lacks k metric
        → HasPlainLabels metric
        → All (AreApart (entry hash k u)) (label_writes deps hash id value metric)
    unfolding label_writes
    label_writes-lacking hash k u [] pk pu n p = tt
    label_writes-lacking hash k u ((l, v) ∷ metric) pk pu n p =
        elim (Bool-cases (text_ord.same l metric_name_label)) [
          | inl e ↦ rw e (label_writes-lacking hash k u metric pk pu n.1 p.1)
          | inr e ↦ rw e (
            apart_by_range (entry hash k u) (entry hash l v) (λ h.
                let same = encode-inj k u id l v id pk pu plain_id p.0.0 p.0.1 plain_id h in
                cc ((text_ord.same_iff l k).1 (sym same.0), n.0)),
            label_writes-lacking hash k u metric pk pu n.1 p.1,
          )
        ]

    label_writes-Pairwise :
        (hash : Text) (metric : Metric)
        → IsMap metric
        → HasPlainLabels metric
        → Pairwise AreApart (label_writes deps hash id value metric)
    unfolding label_writes
    label_writes-Pairwise hash [] m p = tt
    label_writes-Pairwise hash ((l, v) ∷ metric) m p =
        elim (Bool-cases (text_ord.same l metric_name_label)) [
          | inl e ↦ rw e (label_writes-Pairwise hash metric m.1 p.1)
          | inr e ↦ rw e (
            label_writes-lacking hash l v metric p.0.0 p.0.1 m.0 p.1,
            label_writes-Pairwise hash metric m.1 p.1,
          )
        ]

  module _ (shows : (i h : ℤ) → deps.show_int i ≡ deps.show_int h → i ≡ h)
      (plain : (i : ℤ) → HasNoColon (deps.show_int i)) (user_id : Text) where
    apart_by_hour :
        (r s : WriteRequest) (name : Text) (i j : ℤ)
        → same_ℤ i j ≡ false
        → r.hash_value ≡ hash_value deps user_id i name
        → s.hash_value ≡ hash_value deps user_id j name
        → AreApart r s
    apart_by_hour r s name i j n e f =
        rw (e, f, same-hash_value deps shows plain user_id i j name name, n) refl

    module _ (name : Text) (c : Chunk Time) (plain_texts : HasPlainTexts c) (value : List ℕ) where
      -- An entry of the chunk for an hour
      abbrev IsAt : ℤ → WriteRequest → Type 0
      IsAt h r = (r.hash_value ≡ hash_value deps user_id h name) × IsFor c.id r

      abbrev entries_from : ℕ → ℤ → List WriteRequest
      entries_from rounds i = hour_writes deps user_id name c value (hours_from rounds i)

      entries_from-later :
          (rounds : ℕ) (i : ℤ) → All (λ r. (h : ℤ) × (i ≤ℤ h) × IsAt h r) (entries_from rounds i)
      unfolding hours_from hour_writes
      entries_from-later zero i = tt
      entries_from-later (suc rounds) i =
          All-append (λ r. (h : ℤ) × (i ≤ℤ h) × IsAt h r) _ (entries_from rounds (next i))
            (All-map (λ r a. (i, ground arith, a)) _
              (label_writes-IsFor c.id plain_texts.0 value (hash_value deps user_id i name) c.metric
                plain_texts.1))
            (All-map (λ r (h, le, a). (h, ground arith, a)) _ (entries_from-later rounds (next i)))

      entries_from-Pairwise :
          (rounds : ℕ) (i : ℤ) → IsMap c.metric → Pairwise AreApart (entries_from rounds i)
      unfolding hours_from hour_writes
      entries_from-Pairwise zero i m = tt
      entries_from-Pairwise (suc rounds) i m =
          append-Pairwise AreApart _ (entries_from rounds (next i))
            (All-map
              (λ r (e, a).
                All-map (λ s (h, le, b). apart_by_hour r s name i h (ground arith) e b.0) _
                  (entries_from-later rounds (next i)))
              _
              (label_writes-IsFor c.id plain_texts.0 value (hash_value deps user_id i name) c.metric
                plain_texts.1))
            (label_writes-Pairwise c.id plain_texts.0 value (hash_value deps user_id i name)
              c.metric m plain_texts.1)
            (entries_from-Pairwise rounds (next i) m)

    -- Of chunks without an ID
    entries_of_others :
        (k : Text) (cs : List (Chunk Time)) (db : List WriteRequest)
        → All HasPlainTexts cs
        → count_key id_of k cs ≡ 0
        → Filed deps user_id cs db
        → All (λ r. (jd : Text) × IsPlain jd × (text_ord.same k jd ≡ false) × IsFor jd r) db
    unfolding count_key big_buckets
    entries_of_others k [] db t n f = subst (All _) (sym f) tt
    entries_of_others k (c ∷ cs) db t n (name, value, rest, named, marshals, e, f) =
        subst (All (λ r. (jd : Text) × IsPlain jd × (text_ord.same k jd ≡ false) × IsFor jd r))
          (sym e)
          (All-append _ _ rest
            (All-map
              (λ r (h, le, a). (
                c.id,
                t.0.0,
                ground (arith, n, text_ord.same_iff k c.id, text_ord.same_iff c.id k),
                a.1,
              ))
              _ (entries_from-later name c t.0 value _ _))
            (entries_of_others k cs rest t.1 (ground (arith, n)) f))

    Filed-Pairwise :
        (cs : List (Chunk Time)) (db : List WriteRequest)
        → All HasPlainTexts cs
        → All (λ c. IsMap c.metric) cs
        → IsDistinct id_of cs
        → Filed deps user_id cs db
        → Pairwise AreApart db
    unfolding big_buckets
    Filed-Pairwise [] db t m d f = subst (Pairwise AreApart) (sym f) tt
    Filed-Pairwise (c ∷ cs) db t m d (name, value, rest, named, marshals, e, f) =
        subst (Pairwise AreApart) (sym e) (
          append-Pairwise AreApart _ rest
            (All-map
              (λ r (h, le, a).
                All-map (λ s (jd, q, n, b). apart_by_id r s c.id jd t.0.0 q n a.1 b) rest
                  (entries_of_others c.id cs rest t.1 (count_of_head id_of c cs d) f))
              _ (entries_from-later name c t.0 value _ _))
            (entries_from-Pairwise name c t.0 value _ _ m.0)
            (Filed-Pairwise cs rest t.1 m.1 (IsDistinct-tail id_of c cs d) f))

    -- The index entries that `calculateDynamoWrites` makes for chunks with distinct IDs all have
    -- different primary keys: none overwrites another, neither of the same chunk (its hours differ, or
    -- its labels) nor of another. The metrics name no label twice, IDs and labels have no null bytes,
    -- range values without them are decoded to what was encoded, and %d writes different numbers
    -- differently and without colons.
    pub calculate_dynamo_writes-Pairwise :
        (cs : List (Chunk Time)) (db : List WriteRequest)
        → All HasPlainTexts cs
        → All (λ c. IsMap c.metric) cs
        → IsDistinct id_of cs
        → calculate_dynamo_writes deps user_id cs ≡ ok db
        → Pairwise AreApart db
    calculate_dynamo_writes-Pairwise cs db t m d h =
        Filed-Pairwise cs db t m d (calculate_dynamo_writes-Filed deps user_id cs db h)
