-- ===== src/Examples/HistoryRuns.antt =====
-- A store over services that keep what is put: a table, a bucket and a cache.
use mathlib.Core.List.Permᴰ
use mathlib.Core.Path.{subst}
use frankenstein.Prelude.{
  ℕ, ◌≡◌, refl, sym, ◌∙◌, ◌⊎◌, inl, inr, true, List, [], ◌∷◌, ◌++◌, Option, none, some,
  if◌then◌else◌, map, arith, All, All-self, Member, Bool-cases, Option-cases, some-inj,
}
use frankenstein.Prelude.Int.{ℤ, pos}
use frankenstein.Prelude.Order.{Text, text_ord}
use frankenstein.Prelude.Sort.{insertion_sorter, insertion_sort, insert_sorted}
use frankenstein.Prelude.Dict.{lookup}
use frankenstein.Prelude.Distinct.{passing}
use frankenstein.Prelude.Keyed.{count_key, IsDistinct}
use frankenstein.Prelude.Result.{Result, Error, ok, err, not_found, ok-inj}
use frankenstein.Wire.RoundTrip.{IsMap}
use frankenstein.Chunk.Types.{Chunk, id_of}
use frankenstein.Chunk.Buckets.{big_buckets, hours_from, hour}
use frankenstein.Chunk.Batch.{batch_requests}
use frankenstein.Chunk.Store.{Deps, Cache, WriteRequest, stored}
use frankenstein.Chunk.Store.Index.{
  calculate_dynamo_writes, chunk_writes, hour_writes, label_writes,
}
use frankenstein.Chunk.Store.Objects.{
  Arrivals, get, put, put_chunks, put_chunk, run_all, gather_errors, update_index,
}
use frankenstein.Chunk.Store.Abstract.{selected}
use frankenstein.Chunk.Store.Abstract.Get.{is_asked_for}
use frankenstein.Chunk.Store.Abstract.Services.{Services, Table, not_put}
use frankenstein.Chunk.Store.Abstract.Puts.{IsCoherent}
use frankenstein.Chunk.Store.Abstract.Reads.{TakesWhole, OnlyCaches, get-OnlyCaches}
use frankenstein.Chunk.Store.Abstract.Held.{Holds, IsIndexable}
use frankenstein.Chunk.Store.Abstract.History.{History, History-Holds, empty, next_put, next_get}
use frankenstein.Examples.IndexRuns.{
  encode, decode, decodes, shows, plain_shown, show_int, seen_chunk, other_chunk, is_cpu, question,
  distinct, texts,
}

pub record State : Type 0 where
  table : List WriteRequest
  bucket : Text → Option (List ℕ)
  values : Text → Option (List ℕ)

abbrev store_at : Text → List ℕ → (Text → Option (List ℕ)) → Text → Option (List ℕ)
store_at key value f k = if text_ord.same key k then some value else f k

abbrev or_missing : Option (List ℕ) → Result (List ℕ)
or_missing none = err not_found
or_missing (some b) = ok b

-- The values that are there for keys
abbrev values_of : (Text → Option (List ℕ)) → List Text → List (Text × List ℕ)
values_of f [] = []
values_of f (k ∷ keys) = elim (f k) [ none ↦ values_of f keys | some b ↦ (k, b) ∷ values_of f keys ]

abbrev cache : Cache State
cache = record {
  get_multi = λ keys w. ok (values_of w.values keys);
  set_item = λ key value w. (none, record w { values = store_at key value w.values });
}

abbrev pub deps : Deps ℤ State
deps = record {
  unix = λ t. t;
  show_int = show_int;
  encode = encode;
  decode = decode;
  marshal = λ c. ok c.id;
  unmarshal = λ value c.
      ok (record (if text_ord.same c.id (1 ∷ []) then seen_chunk else other_chunk) { bytes = [] });
  matches = λ m v. text_ord.same v m.value;
  put_object = λ name bytes w. (none, record w { bucket = store_at name bytes w.bucket });
  get_object = λ name w. or_missing (w.bucket name);
  batch_write_item = λ reqs w. (none, [], record w { table = reqs ++ not_put reqs w.table });
  query_pages = λ input fn s w. ((fn (map stored (selected input w.table)) true s).0, none);
  sorter = insertion_sorter id_of;
  cache = some cache;
  zero_time = pos 0;
}

pub values_of-lookup :
    (f : Text → Option (List ℕ)) (keys : List Text) (k : Text) (b : List ℕ)
    → lookup k (values_of f keys) ≡ some b
    → f k ≡ some b
unfolding lookup
values_of-lookup f [] k b e = cc
values_of-lookup f (j ∷ keys) k b e = elim (Option-cases (f j)) [
  | inl q ↦ values_of-lookup f keys k b (rw (q, lookup) at e)
  | inr (c, q) ↦ elim (Bool-cases (text_ord.same j k)) [
    | inl s ↦ subst (λ i. f i ≡ some b) ((text_ord.same_iff j k).0 s) (q ∙ rw (q, s, lookup) at e)
    | inr s ↦ values_of-lookup f keys k b (rw (q, s, lookup) at e)
  ]
]

pub or_missing_lem :
    (o : Option (List ℕ)) (b : List ℕ)
    → (o ≡ some b → or_missing o ≡ ok b) × (or_missing o ≡ ok b → o ≡ some b)
or_missing_lem none b = ((λ e. cc e), λ e. cc e)
or_missing_lem (some a) b = ((λ e. cc e), λ e. cc e)

pub store_at-cases :
    (f : Text → Option (List ℕ)) (key k : Text) (value b : List ℕ)
    → store_at key value f k ≡ some b
    → (f k ≡ some b) ⊎ ((key ≡ k) × (value ≡ b))
store_at-cases f key k value b e = elim (Bool-cases (text_ord.same key k)) [
  | inl s ↦ inr ((text_ord.same_iff key k).0 s, some-inj value b (rw s at e))
  | inr s ↦ inl (rw s at e)
]

abbrev pub table_of : State → Table
table_of w = record { entries = w.table; given_back = 0 }

abbrev pub services : Services deps
services = record {
  table = table_of;
  object = λ w. w.bucket;
  cached = λ w. w.values;
  page = λ input w. selected input w.table;
  put_object_ok = λ name bytes w h. (refl, (λ k. refl), λ k. refl);
  get_object_ok = λ name bytes w. or_missing_lem (w.bucket name) bytes;
  batch_write_back = λ reqs w h. refl;
  batch_write_ok =
      λ reqs w p h n. (Permᴰ.refl (reqs ++ not_put reqs w.table), (λ k. refl), λ k. refl);
  query_ok = λ input w. (Permᴰ.refl (selected input w.table), λ fn s. refl);
  set_item_ok = λ c key value w e.
      subst
        (λ (c : Cache State).
          let w1 = (c.set_item key value w).1 in
          (table_of w1 ≡ table_of w)
          × ((k : Text) → w1.bucket k ≡ w.bucket k)
          × ((k : Text) (b : List ℕ)
              → w1.values k ≡ some b
              → (w.values k ≡ some b) ⊎ ((key ≡ k) × (value ≡ b))))
        (some-inj cache c e) (refl, (λ k. refl), λ k b q. store_at-cases w.values key k value b q);
  get_multi_ok = λ c keys items w e h k b l. values_of-lookup w.values keys k b (
      subst (λ xs. lookup k xs ≡ some b)
        (sym (
          ok-inj (values_of w.values keys) items (
            subst (λ (c : Cache State). c.get_multi keys w ≡ ok items) (sym (some-inj cache c e))
              h)))
        l);
}

abbrev pub in_turn : Arrivals deps
in_turn = record { sets = λ rs. rs; fetched = λ rs. rs; taken = λ cs. map (λ c. (c, c)) cs }

pairs_read :
    (ys xs : List (Chunk ℤ))
    → All (λ c. Member c ys) xs
    → All (λ (t : Chunk ℤ × Chunk ℤ). Member t.0 ys × (t.1 ≡ t.0)) (map (λ c. (c, c)) xs)
pairs_read ys [] h = tt
pairs_read ys (x ∷ xs) h = ((h.0, refl), pairs_read ys xs h.1)

whole_taken : TakesWhole deps services in_turn
whole_taken xs = pairs_read xs xs (All-self xs)

abbrev w0 : State
w0 = record { table = []; bucket = λ k. none; values = λ k. none }

abbrev put_one : Chunk ℤ → State → Option Error × State
put_one c w = put deps (λ cs. cs) (λ bs. bs) (some []) (c ∷ []) w

abbrev w1 : State
w1 = (put_one other_chunk w0).1

-- After a `Get` of another user
abbrev w2 : State
w2 = (get deps in_turn (some (4 ∷ [])) (pos 0) (pos 10) question w1).1

abbrev pub w3 : State
w3 = (put_one seen_chunk w2).1

maps : IsMap other_chunk.metric
maps = ((refl, tt), (tt, tt))

one_alone : IsDistinct id_of (other_chunk ∷ [])
unfolding count_key
one_alone k = ground arith

pub history : History deps services [] (seen_chunk ∷ other_chunk ∷ []) w3
unfolding put put_chunks run_all put_chunk gather_errors update_index calculate_dynamo_writes
    chunk_writes hour_writes label_writes big_buckets hours_from hour batch_requests lookup
    count_key
history =
    next_put
      (next_get
        (next_put (empty (refl, (λ id. refl), λ k. refl)) (λ cs. cs) (λ xs. Permᴰ.refl xs)
          (λ bs. bs) (λ xs. Permᴰ.refl xs) (other_chunk ∷ []) refl ((texts.1.0, maps), tt) one_alone
          refl refl)
        in_turn (λ xs. Permᴰ.refl xs) whole_taken (some (4 ∷ [])) (pos 0) (pos 10) question refl)
      (λ cs. cs) (λ xs. Permᴰ.refl xs) (λ bs. bs) (λ xs. Permᴰ.refl xs) (seen_chunk ∷ []) refl
      ((texts.0, maps), ((texts.1.0, maps), tt)) distinct refl refl

coherent : IsCoherent deps services w1
unfolding put put_chunks run_all put_chunk gather_errors update_index calculate_dynamo_writes
    chunk_writes hour_writes label_writes big_buckets hours_from hour batch_requests lookup
coherent k b e = e

-- Of the two chunks, the answer has the one whose label the matcher accepts, whole.
answer_run :
    deps.sorter.sort (
      passing id_of
        (is_asked_for deps (7 ∷ []) (is_cpu ∷ []) (pos 0) (pos 10))
        (seen_chunk ∷ other_chunk ∷ []))
    ≡ seen_chunk ∷ []
unfolding insertion_sort insert_sorted big_buckets hours_from hour lookup
answer_run = refl

History-Holds_example :
    Holds deps services [] (seen_chunk ∷ other_chunk ∷ []) w3
    × All IsIndexable (seen_chunk ∷ other_chunk ∷ [])
    × IsDistinct id_of (seen_chunk ∷ other_chunk ∷ [])
History-Holds_example = History-Holds deps services [] decodes shows plain_shown history

get-OnlyCaches_example :
    OnlyCaches deps services w1 (get deps in_turn (some (4 ∷ [])) (pos 0) (pos 10) question w1).1
get-OnlyCaches_example =
    get-OnlyCaches deps services in_turn (λ xs. Permᴰ.refl xs) whole_taken (some (4 ∷ [])) (pos 0)
      (pos 10) question w1 coherent
