-- ===== src/Chunk/Store/Abstract/Get.antt =====
-- chunk/chunk_store.go: `lookupChunks` refines the abstract view: the chunks that match a question.
use mathlib.Core.List.{Permᴰ}
use mathlib.Core.List.Permᴰ
use frankenstein.Prelude.{◌≡◌, ap, ◌∙◌, Bool, true, List, [], ◌∷◌, map, none, some, All, All-map}
use frankenstein.Prelude.Int.{ℤ}
use frankenstein.Prelude.Order.{Text, text_ord}
use frankenstein.Prelude.Sort.{find, All-perm}
use frankenstein.Prelude.Keyed.{IsDistinct}
use frankenstein.Prelude.Gather.{all_of, all_of-perm, any_of, any_of-perm, arranged}
use frankenstein.Prelude.Result.{Result, ok}
use frankenstein.Model.{LabelMatcher}
use frankenstein.Wire.RoundTrip.{IsMap}
use frankenstein.Chunk.Types.{Chunk, id_of}
use frankenstein.Chunk.Matchers.{extract_metric_name}
use frankenstein.Chunk.Buckets.{big_buckets}
use frankenstein.Chunk.Sets.{n_way_intersect}
use frankenstein.Chunk.Sets.NWay.{n_way_intersect-Returns}
use frankenstein.Chunk.Store.{Deps, WriteRequest, Item, QueryInput, Pages, stored}
use frankenstein.Chunk.Store.Index.{calculate_dynamo_writes}
use frankenstein.Chunk.Store.Query.{
  lookup_chunks_for_matcher, lookup_chunks_for, lookup_chunks, gather_sets, or_empty, sent,
}
use frankenstein.Chunk.Store.Abstract.{is_hit, answer, selected, Decodes}
use frankenstein.Chunk.Store.Abstract.Filed.{IsReadable, HasPlainTexts}
use frankenstein.Chunk.Store.Abstract.Hash.{HasNoColon}
use frankenstein.Chunk.Store.Abstract.Lookups.{
  Fits, lookup_chunks_for_metric_name-answer, lookup_chunks_for_matcher-answer,
}
use frankenstein.Chunk.Store.Abstract.Gathered.{
  map-ext, gated-ext, view, view_unique, views-IsStrict, common-views, gather_sets-views,
  gather_merged-views,
}

module _ {Time W : Type 0} (deps : Deps Time W) where
  -- A chunk matches in an hour: it has the name and the hour, and for every matcher a label that it
  -- accepts; with no matchers, any label but the name.
  abbrev pub is_match : Text → List LabelMatcher → ℤ → Chunk Time → Bool
  is_match asked [] hour c = is_hit deps asked hour none c
  is_match asked (m ∷ ms) hour c = all_of (λ q. is_hit deps asked hour (some q) c) (m ∷ ms)

  -- A chunk matches in one of the hours from a time to a time.
  abbrev pub is_asked_for : Text → List LabelMatcher → Time → Time → Chunk Time → Bool
  is_asked_for asked ms from through c =
      any_of (λ hour. is_match asked ms hour c) (big_buckets deps.unix from through)

module _ {Time W : Type 0} (deps : Deps Time W) (decodes : Decodes deps)
    (shows : (i h : ℤ) → deps.show_int i ≡ deps.show_int h → i ≡ h)
    (plain : (i : ℤ) → HasNoColon (deps.show_int i)) (user_id : Text) (cs : List (Chunk Time))
    (db : List WriteRequest) (readable : All (IsReadable deps) cs)
    (plain_texts : All HasPlainTexts cs) (distinct : IsDistinct id_of cs)
    (maps : All (λ c. IsMap c.metric) cs)
    (indexed : calculate_dynamo_writes deps user_id cs ≡ ok db) (w : W)
    (page : QueryInput → List WriteRequest)
    (paged : (input : QueryInput) → Permᴰ (page input) (selected input db))
    (answers : (input : QueryInput) (fn : List Item → Bool → Pages Time → Pages Time × Bool)
        (s : Pages Time)
      → deps.query_pages input fn s w ≡ ((fn (map stored (page input)) true s).0, none))
    (arrival : List (Result (List (Chunk Time))) → List (Result (List (Chunk Time))))
    (arrives : (rs : List (Result (List (Chunk Time)))) → Permᴰ (arrival rs) rs) (asked : Text)
    (ms : List LabelMatcher) (fits : All (Fits deps) ms) where
  intersected :
      (hour : ℤ) (m : LabelMatcher) (rest qs : List LabelMatcher)
      → Permᴰ qs (m ∷ rest)
      → All (Fits deps) qs
      → let (sets, error) =
          gather_sets deps (map (lookup_chunks_for_matcher deps w user_id hour asked) qs) [] none in
        sent deps (or_empty deps (n_way_intersect sets), error)
        ≡ ok (view deps cs (is_match deps asked (m ∷ rest) hour))
  intersected hour m rest [] d f = cc (Permᴰ.length-eq d)
  intersected hour m rest (q ∷ qs) d f =
      rw
        (
          map-ext (lookup_chunks_for_matcher deps w user_id hour asked)
              (λ q. ok (view deps cs (is_hit deps asked hour (some q)))) (q ∷ qs)
              (All-map
                (λ q f.
                  lookup_chunks_for_matcher-answer deps decodes shows plain user_id cs db readable
                    plain_texts distinct maps indexed w page paged answers asked hour q f)
                (q ∷ qs) f),
          gather_sets-views deps cs distinct (λ q. is_hit deps asked hour (some q)) (q ∷ qs) [],
        )
        (let (r, e, i) =
            n_way_intersect-Returns
              (map (λ q. view deps cs (is_hit deps asked hour (some q))) (q ∷ qs))
              (views-IsStrict deps cs distinct (λ q. is_hit deps asked hour (some q)) (q ∷ qs)) in
          rw e (
            ap ok (
              view_unique deps cs distinct (is_match deps asked (m ∷ rest) hour) r i.strict λ k.
                i.members k
                ∙ common-views deps cs distinct (λ q. is_hit deps asked hour (some q)) k q qs
                ∙ gated-ext (λ c. all_of (λ q. is_hit deps asked hour (some q) c) (q ∷ qs))
                    (is_match deps asked (m ∷ rest) hour) (find id_of k cs)
                    (λ c. all_of-perm (λ q. is_hit deps asked hour (some q) c) d))))

  lookup_chunks_for-answer :
      (hour : ℤ)
      → lookup_chunks_for deps arrival w user_id hour asked ms
        ≡ ok (view deps cs (is_match deps asked ms hour))
  unfolding lookup_chunks_for
  lookup_chunks_for-answer hour = by_matchers ms fits
    where
      by_matchers :
          (ms : List LabelMatcher)
          → All (Fits deps) ms
          → lookup_chunks_for deps arrival w user_id hour asked ms
            ≡ ok (view deps cs (is_match deps asked ms hour))
      by_matchers [] f =
          lookup_chunks_for_metric_name-answer deps decodes shows plain user_id cs db readable
            plain_texts distinct maps indexed w page paged answers asked hour
      by_matchers (m ∷ rest) f =
          let look = lookup_chunks_for_matcher deps w user_id hour asked in
          let (qs, e, d) =
            arranged look (arrival (map look (m ∷ rest))) (m ∷ rest)
              (arrives (map look (m ∷ rest))) in
          rw e (intersected hour m rest qs d (All-perm (Fits deps) d f))

  -- Where the index holds exactly the entries of some chunks, and DynamoDB answers every query with
  -- one page, of the entries under its hash and in its range in any order, the lookup of `Get` for
  -- a user, in whatever order the results of its goroutines arrive, returns exactly the chunks that
  -- match: those with the name that an hour of the question touches in which every other matcher
  -- accepts a label, in order of ID, without their bytes. With no other matcher, any label but the
  -- name will do. The chunks have distinct IDs, metrics that name no label twice, no null bytes in
  -- IDs and labels, and JSON that is read back; %d writes different numbers differently and without
  -- colons; and the range of every matcher includes the labels that it accepts.
  pub lookup_chunks-answer :
      (matchers : List LabelMatcher) (from through : Time)
      → (extract_metric_name matchers).result ≡ ok (asked, ms)
      → lookup_chunks deps arrival w user_id from through matchers
        ≡ ok (deps.sorter.sort (answer (is_asked_for deps asked ms from through) cs))
  unfolding lookup_chunks
  lookup_chunks-answer matchers from through extracted =
      let look : ℤ → Result (List (Chunk Time)) =
        λ hour. lookup_chunks_for deps arrival w user_id hour asked ms in
      let hours = big_buckets deps.unix from through in
      let (qs, e, d) = arranged look (arrival (map look hours)) hours (arrives (map look hours)) in
      let (r, gathers, strict, finds) =
        gather_merged-views deps cs distinct (is_match deps asked ms) arrival qs [] tt in
      rw
        (
          extracted,
          e,
          map-ext look (λ hour. ok (view deps cs (is_match deps asked ms hour))) qs (every qs),
        )
        (rw gathers (
          ap ok (
            view_unique deps cs distinct (is_asked_for deps asked ms from through) r strict λ k.
              finds k
              ∙ gated-ext (λ c. any_of (λ hour. is_match deps asked ms hour c) qs)
                  (is_asked_for deps asked ms from through) (find id_of k cs)
                  (λ c. any_of-perm (λ hour. is_match deps asked ms hour c) d))))
    where
      every :
          (qs : List ℤ)
          → All
              (λ hour.
                lookup_chunks_for deps arrival w user_id hour asked ms
                ≡ ok (view deps cs (is_match deps asked ms hour)))
              qs
      every [] = tt
      every (q ∷ qs) = (lookup_chunks_for-answer q, every qs)
