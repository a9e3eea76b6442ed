-- ===== src/Chunk/Store/RoundTrip.antt =====
-- The index entries of a chunk, from `calculateDynamoWrites` to `processResponse`.
use frankenstein.Prelude.{
  ℕ, false, inl, inr, List, [], ◌∷◌, some, ◌≡◌, refl, sym, ap, ◌∙◌, All, All-append, Member,
  Member-append_left, Member-append_right, Bool-cases, true,
}
use frankenstein.Prelude.Int.{ℤ}
use frankenstein.Prelude.Order.{Text, text_ord}
use frankenstein.Prelude.Dict.{lookup}
use frankenstein.Prelude.Result.{ok}
use frankenstein.Model.{Metric, metric_name_label}
use frankenstein.Chunk.Types.{Chunk}
use frankenstein.Chunk.Buckets.{big_buckets}
use frankenstein.Chunk.Store.{Deps, WriteRequest, hash_value, only_id, stored}
use frankenstein.Chunk.Store.Index.{label_writes, hour_writes, chunk_writes, read_item}

module _ {Time W : Type 0} (deps : Deps Time W) (c : Chunk Time) (value : List ℕ) where
  -- What is not written: json.Marshal leaves the bytes out.
  abbrev pub without_bytes : Chunk Time
  without_bytes = record c { bytes = [] }

  -- The entry of a label under a hash.
  abbrev pub entry : Text → Text × Text → WriteRequest
  entry hash (label, v) = record {
    hash_value = hash;
    range_value = deps.encode label v c.id;
    chunk_value = value;
  }

  label_writes-has :
      (hash : Text) (l : Text × Text) (metric : Metric)
      → Member l metric
      → text_ord.same l.0 metric_name_label ≡ false
      → Member (entry hash l) (label_writes deps hash c.id value metric)
  unfolding label_writes
  label_writes-has hash l [] h e = elim h [ ]
  label_writes-has hash l ((label, v) ∷ metric) (inl h) e =
      rw (ap (λ (x : Text × Text). text_ord.same x.0 metric_name_label) (sym h) ∙ e)
        (inl (ap (entry hash) h))
  label_writes-has hash l ((label, v) ∷ metric) (inr h) e =
      elim (Bool-cases (text_ord.same label metric_name_label)) [
        | inl name ↦ rw name (label_writes-has hash l metric h e)
        | inr other ↦ rw other (inr (label_writes-has hash l metric h e))
      ]

  hour_writes-has :
      (user_id name : Text) (l : Text × Text) (hour : ℤ) (hours : List ℤ)
      → Member hour hours
      → Member l c.metric
      → text_ord.same l.0 metric_name_label ≡ false
      → Member
          (entry (hash_value deps user_id hour name) l)
          (hour_writes deps user_id name c value hours)
  unfolding hour_writes
  hour_writes-has user_id name l hour [] h m e = elim h [ ]
  hour_writes-has user_id name l hour (i ∷ hours) (inl h) m e =
      rw h (Member-append_left _ _ _ (label_writes-has _ l c.metric m e))
  hour_writes-has user_id name l hour (i ∷ hours) (inr h) m e =
      Member-append_right _ (label_writes deps (hash_value deps user_id i name) c.id value c.metric)
        _ (hour_writes-has user_id name l hour hours h m e)

  -- A write that is read back as the chunk without its bytes, with a label of it.
  abbrev pub ReadsBack : WriteRequest → Type 0
  ReadsBack r =
      (l : Text × Text) × Member l c.metric
      × (read_item deps (stored r) ≡ ok (l.0, l.1, without_bytes))

  module _
      (decodes : (label v : Text)
        → Member (label, v) c.metric
        → deps.decode (deps.encode label v c.id) ≡ ok (label, v, c.id))
      (unmarshals : deps.unmarshal value (only_id deps c.id) ≡ ok without_bytes) where
    entry-ReadsBack : (hash : Text) (l : Text × Text) → Member l c.metric → ReadsBack (entry hash l)
    unfolding read_item
    entry-ReadsBack hash (label, v) m = ((label, v), m, rw (decodes label v m) (rw unmarshals))

    label_writes-ReadsBack :
        (hash : Text) (metric : Metric)
        → ((l : Text × Text) → Member l metric → Member l c.metric)
        → All ReadsBack (label_writes deps hash c.id value metric)
    unfolding label_writes
    label_writes-ReadsBack hash [] sub = tt
    label_writes-ReadsBack hash ((label, v) ∷ metric) sub =
        let rest = label_writes-ReadsBack hash metric (λ l m. sub l (inr m)) in
        elim (Bool-cases (text_ord.same label metric_name_label)) [
          | inl name ↦ rw name rest
          | inr other ↦ rw other (entry-ReadsBack hash (label, v) (sub (label, v) (inl refl)), rest)
        ]

    pub hour_writes-ReadsBack :
        (user_id name : Text) (hours : List ℤ)
        → All ReadsBack (hour_writes deps user_id name c value hours)
    unfolding hour_writes
    hour_writes-ReadsBack user_id name [] = tt
    hour_writes-ReadsBack user_id name (i ∷ hours) =
        All-append ReadsBack _ _ (label_writes-ReadsBack _ c.metric (λ l m. m))
          (hour_writes-ReadsBack user_id name hours)

    -- The index entries of a chunk whose metric has a name: for every hour that it touches and every
    -- other label there is one, under the hash of the user, the hour and the name; and every entry is
    -- read back as the chunk without its bytes and one of its labels. What the encodings must do: the
    -- range values of the chunk's labels decode to what was encoded, and the chunk's JSON is read back.
    pub chunk_writes_lem :
        (user_id name : Text) (hour : ℤ) (l : Text × Text)
        → lookup metric_name_label c.metric ≡ some name
        → deps.marshal c ≡ ok value
        → Member hour (big_buckets deps.unix c.from c.through)
        → Member l c.metric
        → text_ord.same l.0 metric_name_label ≡ false
        → (reqs : List WriteRequest) × (chunk_writes deps user_id c ≡ ok reqs)
          × Member (entry (hash_value deps user_id hour name) l) reqs
          × All ReadsBack reqs
    unfolding chunk_writes
    chunk_writes_lem user_id name hour l named marshals h m e =
        let hours = big_buckets deps.unix c.from c.through in
        (
          hour_writes deps user_id name c value hours,
          rw named (rw marshals),
          hour_writes-has user_id name l hour hours h m e,
          hour_writes-ReadsBack user_id name hours,
        )

  label_writes-only_name :
      (hash : Text) (metric : Metric)
      → All (λ (l : Text × Text). text_ord.same l.0 metric_name_label ≡ true) metric
      → label_writes deps hash c.id value metric ≡ []
  unfolding label_writes
  label_writes-only_name hash [] h = refl
  label_writes-only_name hash ((label, v) ∷ metric) h =
      rw h.0 (label_writes-only_name hash metric h.1)

  hour_writes-only_name :
      (user_id name : Text) (hours : List ℤ)
      → All (λ (l : Text × Text). text_ord.same l.0 metric_name_label ≡ true) c.metric
      → hour_writes deps user_id name c value hours ≡ []
  unfolding hour_writes
  hour_writes-only_name user_id name [] h = refl
  hour_writes-only_name user_id name (i ∷ hours) h =
      rw
        (
          label_writes-only_name (hash_value deps user_id i name) c.metric h,
          hour_writes-only_name user_id name hours h,
        )
        refl

  -- A chunk whose metric has a name and no other label gets no index entry at all, and no error.
  pub chunk_writes-only_name :
      (user_id name : Text)
      → lookup metric_name_label c.metric ≡ some name
      → deps.marshal c ≡ ok value
      → All (λ (l : Text × Text). text_ord.same l.0 metric_name_label ≡ true) c.metric
      → chunk_writes deps user_id c ≡ ok []
  unfolding chunk_writes
  chunk_writes-only_name user_id name named marshals h = rw named (
      rw marshals
        (ap ok (hour_writes-only_name user_id name (big_buckets deps.unix c.from c.through) h)))
