-- ===== src/Chunk/Store/Abstract/Refines.antt =====
-- A lookup for one question, against the abstract view of the index.
use mathlib.Core.Path.{subst}
use mathlib.Core.List.Permᴰ
use mathlib.Core.Option
use mathlib.Core.List.{Permᴰ, append_assoc, append-nil}
use frankenstein.Prelude.{
  ◌≡◌, refl, sym, ap, ◌∙◌, inl, inr, Bool, true, ◌&&◌, List, [], ◌∷◌, ◌++◌, map, Option, none, some,
  if◌then◌else◌, Bool-cases, All, All-map,
}
use frankenstein.Prelude.Int.{ℤ, same_ℤ}
use frankenstein.Prelude.Order.{Text, text_ord}
use frankenstein.Prelude.Sort.{find, All-perm}
use frankenstein.Prelude.Keyed.{count_key, count_key-perm, IsDistinct, ComesFrom, find-ComesFrom}
use frankenstein.Prelude.Distinct.{ComesFrom-find}
use frankenstein.Prelude.Result.{ok}
use frankenstein.Model.{LabelMatcher}
use frankenstein.Chunk.Types.{Chunk, id_of}
use frankenstein.Chunk.Store.{Deps, WriteRequest, Item, QueryInput, Pages, stored, hash_value}
use frankenstein.Chunk.Store.Index.{process_response, read_item, kept, calculate_dynamo_writes}
use frankenstein.Chunk.Store.Query.{query, on_page, no_pages, query_result}
use frankenstein.Chunk.Store.Abstract.{
  bare, is_hit, selected, shown, all_shown, is_selected, Decodes, Includes,
}
use frankenstein.Chunk.Store.Abstract.Filed.{
  calculate_dynamo_writes-Filed, Filed-IsRead, IsReadable, IsRead, count_key-seen, seen-ComesFrom,
  weigh, HasPlainTexts,
}
use frankenstein.Chunk.Store.Abstract.Answers.{gated, hit_of, weigh-find}

module _ {Time W : Type 0} (deps : Deps Time W) (matcher : Option LabelMatcher) where
  process_response-stored :
      (rs : List WriteRequest) (acc : List (Chunk Time))
      → All (IsRead deps) rs
      → process_response deps matcher (map stored rs) acc ≡ (acc ++ all_shown deps matcher rs, none)
  unfolding process_response
  process_response-stored [] acc h = ap (λ xs. (xs, none)) (sym (append-nil acc))
  process_response-stored (r ∷ rs) acc ((t, e), h) =
      rw (e, process_response)
        (process_response-stored rs (acc ++ kept deps matcher t) h
          ∙ ap (λ xs. (xs, none))
              (append_assoc acc (kept deps matcher t) (all_shown deps matcher rs)
                ∙ ap (λ xs. acc ++ (xs ++ all_shown deps matcher rs)) (sym (shown-read e))))
    where
      shown-read : read_item deps (stored r) ≡ ok t → shown deps matcher r ≡ kept deps matcher t
      shown-read q = rw (q, shown) refl

  swap_front : (xs ys zs : List (Chunk Time)) → Permᴰ (xs ++ (ys ++ zs)) (ys ++ (xs ++ zs))
  swap_front xs ys zs =
      subst (λ l. Permᴰ l (ys ++ (xs ++ zs))) (append_assoc xs ys zs)
        (subst (Permᴰ ((xs ++ ys) ++ zs)) (append_assoc ys xs zs)
          (Permᴰ.append_right zs (Permᴰ.append_comm xs ys)))

  all_shown-perm :
      {rs ss : List WriteRequest}
      → Permᴰ rs ss
      → Permᴰ (all_shown deps matcher rs) (all_shown deps matcher ss)
  all_shown-perm Permᴰ.nil = Permᴰ.nil
  all_shown-perm (Permᴰ.cons {a} {l₁ = as'} {l₂ = bs} e p) =
      subst
        (λ x.
          Permᴰ (shown deps matcher a ++ all_shown deps matcher as')
            (shown deps matcher x ++ all_shown deps matcher bs))
        e (Permᴰ.append_left (shown deps matcher a) (all_shown-perm p))
  all_shown-perm (Permᴰ.swap {a} {b} {b' = b'} {l = l} e f) =
      let rest = all_shown deps matcher l in
      let before = shown deps matcher a ++ (shown deps matcher b ++ rest) in
      subst (λ x. Permᴰ before (shown deps matcher x ++ (shown deps matcher b' ++ rest))) f
        (subst (λ y. Permᴰ before (shown deps matcher b ++ (shown deps matcher y ++ rest))) e
          (swap_front (shown deps matcher a) (shown deps matcher b) rest))
  all_shown-perm (Permᴰ.trans p q) = Permᴰ.trans (all_shown-perm p) (all_shown-perm q)

All-selected :
    (P : WriteRequest → Type 0) (input : QueryInput) (rs : List WriteRequest)
    → All P rs
    → All P (selected input rs)
All-selected P input [] h = tt
All-selected P input (r ∷ rs) h = elim (Bool-cases (is_selected input r)) [
  | inl e ↦ rw e (h.0, All-selected P input rs h.1)
  | inr e ↦ rw e (All-selected P input rs h.1)
]

module _ {Time W : Type 0} (deps : Deps Time W) (decodes : Decodes deps) (user_id asked : Text)
    (hour : ℤ) (matcher : Option LabelMatcher) (input : QueryInput)
    (fits : Includes deps input.range matcher)
    (at_hash : input.hash_value ≡ hash_value deps user_id hour asked)
    (hashes : (i : ℤ) (n : Text)
      → text_ord.same (hash_value deps user_id i n) (hash_value deps user_id hour asked)
        ≡ (same_ℤ i hour && text_ord.same n asked))
    (cs : List (Chunk Time)) (db : List WriteRequest) (readable : All (IsReadable deps) cs)
    (plain_texts : All HasPlainTexts cs) (distinct : IsDistinct id_of cs)
    (indexed : calculate_dynamo_writes deps user_id cs ≡ ok db) (page : List WriteRequest)
    (paged : Permᴰ page (selected input db)) where
  abbrev source : Text → Option (Chunk Time)
  source k = Option.map bare (find id_of k cs)

  source-bare : All (λ c. ComesFrom id_of source (bare c)) cs
  source-bare = All-map (λ c e. ap (Option.map bare) e) cs (ComesFrom-find id_of cs distinct)

  page-IsRead : All (IsRead deps) page
  page-IsRead = All-perm (IsRead deps) paged (
      All-selected (IsRead deps) input db (
        Filed-IsRead deps decodes user_id cs db readable plain_texts
          (calculate_dynamo_writes-Filed deps user_id cs db indexed)))

  pub count_key-page :
      (k : Text)
      → count_key id_of k (deps.sorter.sort (all_shown deps matcher page))
        ≡ weigh deps asked hour matcher k cs
  count_key-page k =
      count_key-perm id_of k (
        Permᴰ.trans (deps.sorter.sort-perm (all_shown deps matcher page))
          (all_shown-perm deps matcher paged))
      ∙ count_key-seen deps decodes user_id asked hour matcher input fits at_hash hashes k cs db
          readable plain_texts (calculate_dynamo_writes-Filed deps user_id cs db indexed)

  page-ComesFrom : All (ComesFrom id_of source) (deps.sorter.sort (all_shown deps matcher page))
  page-ComesFrom =
      All-perm (ComesFrom id_of source)
        (Permᴰ.trans (deps.sorter.sort-perm (all_shown deps matcher page))
          (all_shown-perm deps matcher paged))
        (seen-ComesFrom deps decodes user_id asked hour matcher input fits at_hash hashes source cs
          db readable plain_texts (calculate_dynamo_writes-Filed deps user_id cs db indexed)
          source-bare)

  pub find-page :
      (k : Text)
      → find id_of k (deps.sorter.sort (all_shown deps matcher page))
        ≡ gated (is_hit deps asked hour matcher) (find id_of k cs)
  find-page k =
      find-ComesFrom id_of source k _ page-ComesFrom
      ∙ rw (count_key-page k)
          (rw (weigh-find deps asked hour matcher k cs distinct) (by_found (find id_of k cs)))
    where
      by_found :
          (o : Option (Chunk Time))
          → (if hit_of deps asked hour matcher o then Option.map bare o else none)
            ≡ gated (is_hit deps asked hour matcher) o
      by_found none = refl
      by_found (some c) = refl

  pub query-page :
      (w : W)
      → ((fn : List Item → Bool → Pages Time → Pages Time × Bool) (s : Pages Time)
          → deps.query_pages input fn s w ≡ ((fn (map stored page) true s).0, none))
      → query deps input matcher w ≡ ok (deps.sorter.sort (all_shown deps matcher page))
  unfolding query on_page
  query-page w answers =
      ap (query_result deps) (answers (on_page deps matcher) (no_pages deps))
      ∙ rw (process_response-stored deps matcher page [] page-IsRead) refl
