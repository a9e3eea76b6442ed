-- ===== src/Chunk/Store/Abstract/Kept.antt =====
-- chunk/chunk_store.go: `Get` against the abstract view of what was put.
use mathlib.Core.List.{Permᴰ}
use frankenstein.Prelude.{◌≡◌, ap, true, List, none, some, All, Bool, map}
use frankenstein.Prelude.Int.{ℤ}
use frankenstein.Prelude.Order.{Text, text_ord}
use frankenstein.Prelude.Keyed.{IsDistinct}
use frankenstein.Prelude.Distinct.{passing}
use frankenstein.Prelude.Result.{Result, ok}
use frankenstein.Model.{LabelMatcher}
use frankenstein.Wire.RoundTrip.{IsMap}
use frankenstein.Chunk.Types.{Chunk, id_of}
use frankenstein.Chunk.Matchers.{extract_metric_name}
use frankenstein.Chunk.Store.{Deps, WriteRequest, Item, QueryInput, Pages, stored, chunk_name, Bool}
use frankenstein.Chunk.Store.Index.{calculate_dynamo_writes}
use frankenstein.Chunk.Store.Objects.{Arrivals, get}
use frankenstein.Chunk.Store.Abstract.{selected, Decodes, map}
use frankenstein.Chunk.Store.Abstract.Filed.{IsReadable, HasPlainTexts}
use frankenstein.Chunk.Store.Abstract.Hash.{HasNoColon}
use frankenstein.Chunk.Store.Abstract.Lookups.{Fits}
use frankenstein.Chunk.Store.Abstract.Get.{is_asked_for, lookup_chunks-answer}
use frankenstein.Chunk.Store.Abstract.Found.{HoldsBytes, fetched-answer}

module _ {Time W : Type 0} (deps : Deps Time W) (decodes : Decodes deps)
    (shows : (i h : ℤ) → deps.show_int i ≡ deps.show_int h → i ≡ h)
    (plain : (i : ℤ) → HasNoColon (deps.show_int i)) (user_id : Text) (cs : List (Chunk Time))
    (db : List WriteRequest) (readable : All (IsReadable deps) cs)
    (plain_texts : All HasPlainTexts cs) (distinct : IsDistinct id_of cs)
    (maps : All (λ c. IsMap c.metric) cs)
    (indexed : calculate_dynamo_writes deps user_id cs ≡ ok db) (w : W)
    (page : QueryInput → List WriteRequest)
    (paged : (input : QueryInput) → Permᴰ (page input) (selected input db))
    (answers : (input : QueryInput) (fn : List Item → Bool → Pages Time → Pages Time × Bool)
        (s : Pages Time)
      → deps.query_pages input fn s w ≡ ((fn (map stored (page input)) true s).0, none))
    (in_s3 : All (λ c. deps.get_object (chunk_name user_id c.id) w ≡ ok c.bytes) cs)
    (cached : HoldsBytes deps user_id cs w) (arrivals : Arrivals deps)
    (sets_arrive : (rs : List (Result (List (Chunk Time)))) → Permᴰ (arrivals.sets rs) rs)
    (chunks_arrive : (rs : List (Result (Chunk Time))) → Permᴰ (arrivals.fetched rs) rs) where
  -- Where the index holds exactly the entries of some chunks, S3 their objects, and the cache, if
  -- there is one, nothing but their bytes, and DynamoDB answers every query with one page, of the
  -- entries under its hash and in its range in any order, `Get` for the user, in whatever order the
  -- results of its goroutines arrive, succeeds and returns exactly the chunks that match, whole and
  -- in order of ID: those with the name that an hour of the question touches in which every other
  -- matcher accepts a label. With no other matcher, any label but the name will do. The chunks have
  -- distinct IDs, metrics that name no label twice, no null bytes in IDs and labels, and JSON that
  -- is read back; %d writes different numbers differently and without colons; and the range of
  -- every matcher includes the labels that it accepts.
  pub get-answer :
      (asked : Text) (ms : List LabelMatcher)
      → All (Fits deps) ms
      → (matchers : List LabelMatcher) (from through : Time)
      → (extract_metric_name matchers).result ≡ ok (asked, ms)
      → (get deps arrivals (some user_id) from through matchers w).0
        ≡ ok (deps.sorter.sort (passing id_of (is_asked_for deps asked ms from through) cs))
  unfolding get
  get-answer asked ms fits matchers from through extracted =
      let p = is_asked_for deps asked ms from through in
      let (from_s3, fetches, whole) =
        fetched-answer deps user_id cs w distinct in_s3 cached p arrivals.fetched chunks_arrive in
      rw
        (
          lookup_chunks-answer deps decodes shows plain user_id cs db readable plain_texts distinct
              maps indexed w page paged answers arrivals.sets sets_arrive asked ms fits matchers
              from through extracted,
          get,
        )
        (rw fetches (ap ok whole))
