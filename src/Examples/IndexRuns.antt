-- ===== src/Examples/IndexRuns.antt =====
-- The index over a service that keeps two chunks' entries, with texts that end at a null byte.
use frankenstein.Chunk.Store.Abstract.Kept.{get-answer}
use frankenstein.Prelude.Distinct.{passing}
use frankenstein.Chunk.Store.Objects.{Arrivals, get}
use frankenstein.Chunk.Buckets.{big_buckets, hours_from, hour}
use frankenstein.Prelude.Dict.{lookup}
use frankenstein.Chunk.Store.Abstract.Get.{is_asked_for}
use frankenstein.Chunk.Store.Index.{
  calculate_dynamo_writes, chunk_writes, hour_writes, label_writes,
}
use frankenstein.Chunk.Store.Abstract.Lookups.{Fits}
use frankenstein.Chunk.Store.Abstract.Hash.{HasNoColon}
use frankenstein.Prelude.Pairwise.{Pairwise}
use frankenstein.Chunk.Store.Abstract.Keys.{AreApart, calculate_dynamo_writes-Pairwise}
use frankenstein.Chunk.Store.Abstract.Filed.{HasPlainTexts}
use frankenstein.Chunk.Matchers.{extract_metric_name}
use mathlib.Core.List.Permᴰ
use frankenstein.Prelude.{
  ℕ, ◌+◌, ◌≡◌, refl, true, false, ◌==◌, List, [], ◌∷◌, map, none, if◌then◌else◌, arith, All, some,
}
use frankenstein.Prelude.Int.{ℤ, pos, negsuc}
use frankenstein.Prelude.Order.{Text, text_ord, text_less}
use frankenstein.Prelude.Sort.{insertion_sorter}
use frankenstein.Prelude.Keyed.{count_key, IsDistinct}
use frankenstein.Prelude.Result.{Result, ok}
use frankenstein.Model.{LabelMatcher, MatchType, metric_name_label}
use frankenstein.Chunk.Types.{Chunk, id_of}
use frankenstein.Chunk.Store.{Deps, WriteRequest, stored}
use frankenstein.Chunk.Store.Abstract.{IsPlain, selected, answer}
use frankenstein.Chunk.Store.Abstract.Ranges.{tuple_less, HasPlainTuple, range_bounds-Fits}

-- A text up to a null byte, and what follows.
abbrev sep : Text → List ℕ → List ℕ
sep [] r = 0 ∷ r
sep (b ∷ l) r = b ∷ sep l r

abbrev cut : List ℕ → Text × List ℕ
cut [] = ([], [])
cut (b ∷ s) = if b == 0 then ([], s) else (b ∷ (cut s).0, (cut s).1)

abbrev pub encode : Text → Text → Text → List ℕ
encode l v i = sep l (sep v i)

abbrev pub decode : List ℕ → Result (Text × Text × Text)
decode s = ok ((cut s).0, (cut (cut s).1).0, (cut (cut s).1).1)

cut-sep : (l : Text) (r : List ℕ) → IsPlain l → cut (sep l r) ≡ (l, r)
cut-sep [] r h = refl
cut-sep (b ∷ l) r h = rw h.0 (rw (cut-sep l r h.1) refl)

pub decodes :
    (l v i : Text) → IsPlain l → IsPlain v → IsPlain i → decode (encode l v i) ≡ ok (l, v, i)
decodes l v i p q r = rw (cut-sep l (sep v i) p, cut-sep v i q) refl

sep-less :
    (l l' : Text) (r r' : List ℕ)
    → IsPlain l
    → IsPlain l'
    → text_less (sep l r) (sep l' r')
      ≡ (if text_less l l' then true else if text_less l' l then false else text_less r r')
sep-less [] [] r r' p q = ground arith
sep-less [] (b ∷ l') r r' p q = ground (arith, q.0)
sep-less (a ∷ l) [] r r' p q = ground (arith, p.0)
sep-less (a ∷ l) (b ∷ l') r r' p q = ground (arith, sep-less l l' r r' p.1 q.1)

pub keeps_order :
    (t u : Text × Text × Text)
    → HasPlainTuple t
    → HasPlainTuple u
    → tuple_less t u ≡ true
    → text_less (encode t.0 t.1 t.2) (encode u.0 u.1 u.2) ≡ true
keeps_order (l, v, i) (l', v', i') p q h =
    rw (sep-less l l' (sep v i) (sep v' i') p.0 q.0, sep-less v v' i i' p.1 q.1) h

abbrev pub show_int : ℤ → Text
show_int (pos n) = (59 + n) ∷ []
show_int (negsuc n) = 45 ∷ (59 + n) ∷ []

pub shows : (i h : ℤ) → show_int i ≡ show_int h → i ≡ h
shows (pos n) (pos m) e = ground (arith, e)
shows (pos n) (negsuc m) e = cc
shows (negsuc n) (pos m) e = cc
shows (negsuc n) (negsuc m) e = ground (arith, e)

pub plain_shown : (i : ℤ) → HasNoColon (show_int i)
plain_shown (pos n) = (ground arith, tt)
plain_shown (negsuc n) = (refl, (ground arith, tt))

abbrev pub cpu : Text
cpu = 8 ∷ []

abbrev pub seen_chunk : Chunk ℤ
seen_chunk = record {
  id = 1 ∷ [];
  from = pos 0;
  through = pos 10;
  metric = (metric_name_label, 7 ∷ []) ∷ (cpu, 9 ∷ []) ∷ [];
  bytes = 5 ∷ [];
}

abbrev pub other_chunk : Chunk ℤ
other_chunk = record seen_chunk {
  id = 2 ∷ [];
  metric = (metric_name_label, 7 ∷ []) ∷ (cpu, 3 ∷ []) ∷ [];
}

abbrev both_chunks : List (Chunk ℤ)
both_chunks = seen_chunk ∷ other_chunk ∷ []

-- Their entries, both under the hash of no user's hour 0 and the name.
abbrev db : List WriteRequest
db =
    record {
      hash_value = 58 ∷ 59 ∷ 58 ∷ 7 ∷ [];
      range_value = encode cpu (9 ∷ []) (1 ∷ []);
      chunk_value = 1 ∷ [];
    }
    ∷ record {
      hash_value = 58 ∷ 59 ∷ 58 ∷ 7 ∷ [];
      range_value = encode cpu (3 ∷ []) (2 ∷ []);
      chunk_value = 2 ∷ [];
    }
    ∷ []

abbrev deps : Deps ℤ ℕ
deps = record {
  unix = λ t. t;
  show_int = show_int;
  encode = encode;
  decode = decode;
  marshal = λ c. ok c.id;
  unmarshal = λ value c.
      ok (record (if text_ord.same c.id (1 ∷ []) then seen_chunk else other_chunk) { bytes = [] });
  matches = λ m v. text_ord.same v m.value;
  put_object = λ name bytes w. (none, w);
  get_object = λ name w. ok (5 ∷ []);
  batch_write_item = λ reqs w. (none, [], w);
  query_pages = λ input fn s w. ((fn (map stored (selected input db)) true s).0, none);
  sorter = insertion_sorter id_of;
  cache = none;
  zero_time = pos 0;
}

indexed : calculate_dynamo_writes deps [] both_chunks ≡ ok db
unfolding calculate_dynamo_writes chunk_writes lookup hour_writes label_writes big_buckets
    hours_from hour
indexed = refl

pub distinct : IsDistinct id_of both_chunks
unfolding count_key
distinct [] = ground arith
distinct (b ∷ []) = ground arith
distinct (b ∷ c ∷ k) = ground arith

pub IsPlain-name : IsPlain metric_name_label
IsPlain-name = (refl, (refl, (refl, (refl, (refl, (refl, (refl, (refl, tt))))))))

pub texts : All HasPlainTexts both_chunks
texts = (
  ((refl, tt), ((IsPlain-name, (refl, tt)), (((refl, tt), (refl, tt)), tt))),
  (((refl, tt), ((IsPlain-name, (refl, tt)), (((refl, tt), (refl, tt)), tt))), tt),
)

abbrev pub is_cpu : LabelMatcher
is_cpu = record { mtype = MatchType.equal; name = cpu; value = 9 ∷ [] }

abbrev pub question : List LabelMatcher
question =
    record { mtype = MatchType.equal; name = metric_name_label; value = 7 ∷ [] } ∷ is_cpu ∷ []

pub extracted : (extract_metric_name question).result ≡ ok (7 ∷ [], is_cpu ∷ [])
unfolding extract_metric_name
extracted = refl

range_bounds-Fits_example : Fits deps is_cpu
range_bounds-Fits_example =
    range_bounds-Fits deps keeps_order is_cpu ((refl, tt), (refl, tt))
      (λ v e h. (text_ord.same_iff v (9 ∷ [])).0 h) (omega arith)

abbrev in_turn : Arrivals deps
in_turn = record { sets = λ rs. rs; fetched = λ rs. rs; taken = λ cs. map (λ c. (c, c)) cs }

get-answer_example :
    (get deps in_turn (some []) (pos 0) (pos 10) question 0).0
    ≡ ok (
        deps.sorter.sort
          (passing id_of (is_asked_for deps (7 ∷ []) (is_cpu ∷ []) (pos 0) (pos 10)) both_chunks))
get-answer_example =
    get-answer deps decodes shows plain_shown [] both_chunks db
      ((λ value e. refl), ((λ value e. refl), tt)) texts distinct
      (((refl, tt), (tt, tt)), (((refl, tt), (tt, tt)), tt)) indexed 0 (λ input. selected input db)
      (λ input. Permᴰ.refl (selected input db)) (λ input fn s. refl) (refl, (refl, tt))
      (λ cache keys items e f. cc e) in_turn (λ rs. Permᴰ.refl rs) (λ rs. Permᴰ.refl rs) (7 ∷ [])
      (is_cpu ∷ [])
      (
        range_bounds-Fits deps keeps_order is_cpu ((refl, tt), (refl, tt))
            (λ v e h. (text_ord.same_iff v (9 ∷ [])).0 h) (omega arith),
        tt,
      )
      question (pos 0) (pos 10) extracted

-- Of the two chunks, the answer has the one whose label the matcher accepts.
answer_run :
    answer (is_asked_for deps (7 ∷ []) (is_cpu ∷ []) (pos 0) (pos 10)) both_chunks
    ≡ record seen_chunk { bytes = [] } ∷ []
unfolding lookup big_buckets hours_from hour
answer_run = refl

-- No two of the entries of the two chunks share a key.
calculate_dynamo_writes-Pairwise_example : Pairwise AreApart db
calculate_dynamo_writes-Pairwise_example =
    calculate_dynamo_writes-Pairwise deps decodes shows plain_shown [] both_chunks db texts
      (((refl, tt), (tt, tt)), (((refl, tt), (tt, tt)), tt)) distinct indexed
