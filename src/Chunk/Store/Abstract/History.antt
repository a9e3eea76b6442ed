-- ===== src/Chunk/Store/Abstract/History.antt =====
-- chunk/chunk_store.go: `Put` and `Get` one after another, from an empty store.
use mathlib.Core.List.{Permᴰ}
use mathlib.Core.List.Permᴰ
use mathlib.Core.Path.{subst}
use frankenstein.Prelude.{
  ◌≡◌, refl, sym, ap, ◌∙◌, arith, List, [], ◌∷◌, ◌++◌, none, some, All, Bool, true, false,
  if◌then◌else◌,
}
use frankenstein.Prelude.Int.{ℤ}
use frankenstein.Prelude.Order.{Text, text_ord}
use frankenstein.Prelude.Keyed.{count_key, IsDistinct}
use frankenstein.User.{Context}
use frankenstein.Model.{LabelMatcher}
use frankenstein.Chunk.Types.{Chunk, id_of}
use frankenstein.Chunk.Store.{Deps, WriteRequest, QueryInput, chunk_name}
use frankenstein.Chunk.Store.Index.{calculate_dynamo_writes}
use frankenstein.Chunk.Store.Objects.{put, Arrivals, get}
use frankenstein.Chunk.Store.Abstract.{Decodes, selected, is_selected}
use frankenstein.Chunk.Store.Abstract.Hash.{HasNoColon}
use frankenstein.Chunk.Store.Abstract.Services.{Services, Table}
use frankenstein.Chunk.Store.Abstract.Reads.{TakesWhole, get-OnlyCaches}
use frankenstein.Chunk.Store.Abstract.Held.{IsIndexable, Holds, put-Holds}

module _ (input : QueryInput) where
  abbrev or_not : Bool → WriteRequest → List WriteRequest → List WriteRequest
  or_not b r rs = if b then r ∷ rs else rs

  keep_one :
      (b : Bool) (r s : WriteRequest) {rs ss : List WriteRequest}
      → r ≡ s
      → Permᴰ rs ss
      → Permᴰ (or_not b r rs) (or_not b s ss)
  keep_one true r s e d = Permᴰ.cons e d
  keep_one false r s e d = d

  keep_two :
      (b c : Bool) (r s : WriteRequest) (rs : List WriteRequest)
      → Permᴰ (or_not b r (or_not c s rs)) (or_not c s (or_not b r rs))
  keep_two true true r s rs = Permᴰ.swap refl refl
  keep_two true false r s rs = Permᴰ.refl (r ∷ rs)
  keep_two false c r s rs = Permᴰ.refl (or_not c s rs)

  kept_one :
      (r s : WriteRequest) {rs ss : List WriteRequest}
      → r ≡ s
      → Permᴰ rs ss
      → Permᴰ (or_not (is_selected input r) r rs) (or_not (is_selected input s) s ss)
  kept_one r s {rs} {ss} e d =
      subst (λ b. Permᴰ (or_not (is_selected input r) r rs) (or_not b s ss))
        (ap (is_selected input) e) (keep_one (is_selected input r) r s e d)

  pub selected-perm :
      {rs ss : List WriteRequest} → Permᴰ rs ss → Permᴰ (selected input rs) (selected input ss)
  selected-perm Permᴰ.nil = Permᴰ.nil
  selected-perm (Permᴰ.cons e d) = kept_one _ _ e (selected-perm d)
  selected-perm (Permᴰ.swap {a = a} {b = b} {l = l} e f) =
      Permᴰ.trans (keep_two (is_selected input a) (is_selected input b) a b (selected input l))
        (kept_one _ _ f (kept_one _ _ e (Permᴰ.refl (selected input l))))
  selected-perm (Permᴰ.trans d d') = Permᴰ.trans (selected-perm d) (selected-perm d')

-- In whatever order goroutines take effect
abbrev pub Arranges : {A : Type 0} → (List A → List A) → Type 0
Arranges {A} f = (xs : List A) → Permᴰ (f xs) xs

module _ {Time W : Type 0} (deps : Deps Time W) (services : Services deps) (user_id : Text) where
  -- A user without chunks
  abbrev pub IsEmpty : W → Type 0
  IsEmpty w =
      ((services.table w).entries ≡ [])
      × ((id : Text) → services.object w (chunk_name user_id id) ≡ none)
      × ((k : Text) → services.cached w k ≡ none)

  -- The states that a user's store comes to, with the chunks that were put: by a `Put` of chunks with
  -- new IDs that returns no error, and by a `Get` of any user, with any outcome.
  pub data History : List (Chunk Time) → W → Type 0 where
    empty : {w : W} → IsEmpty w → History [] w
    next_put :
        {cs ds : List (Chunk Time)} {w w1 : W}
        → History cs w
        → (arrange : List (Chunk Time) → List (Chunk Time)) → Arranges arrange
        → (arrange_batches : List (List WriteRequest) → List (List WriteRequest))
        → Arranges arrange_batches
        → (chunks : List (Chunk Time)) → ds ≡ chunks ++ cs
        → All IsIndexable ds
        → IsDistinct id_of ds
        → put deps arrange arrange_batches (some user_id) chunks w ≡ (none, w1)
        → (services.table w1).given_back ≡ (services.table w).given_back
        → History ds w1
    next_get :
        {cs : List (Chunk Time)} {w w1 : W}
        → History cs w
        → (arrivals : Arrivals deps) → Arranges arrivals.fetched
        → TakesWhole deps services arrivals
        → (ctx : Context) → (from : Time) → (through : Time) → (matchers : List LabelMatcher)
        → (get deps arrivals ctx from through matchers w).1 ≡ w1
        → History cs w1

  module _ (decodes : Decodes deps) (shows : (i h : ℤ) → deps.show_int i ≡ deps.show_int h → i ≡ h)
      (plain : (i : ℤ) → HasNoColon (deps.show_int i)) where
    -- However a user's store has come about from an empty one, by puts of the user and gets of
    -- any user with any outcome, where the puts gave chunks new IDs and returned no error,
    -- DynamoDB gave none of their requests back as unprocessed, and the goroutines of
    -- StoreChunks read the ID and the data of one chunk, the table holds just the index entries
    -- of the chunks that were put, S3 just their bytes of the names of the user, and the cache
    -- nothing but what S3 has under the same name. Chunks have no null bytes in IDs and labels,
    -- metrics name no label twice, and the IDs are distinct; range values are read back, and %d
    -- writes different numbers differently and without colons. What is taken of the services,
    -- as Services has it: S3 keeps an object under the name of its last put that succeeded, and
    -- reads of it succeed; DynamoDB answers every query with one page, in any order, and writes
    -- all items of a batch of which it gives none back unprocessed; memcache forgets at will
    -- but has nothing that was not set.
    pub History-Holds :
        {cs : List (Chunk Time)} {w : W}
        → History cs w
        → Holds deps services user_id cs w × All IsIndexable cs × IsDistinct id_of cs
    unfolding calculate_dynamo_writes count_key
    History-Holds (empty {w = w} (entries, objects, cache)) = (
      (
        ([], refl, subst (λ es. Permᴰ es []) (sym entries) Permᴰ.nil),
        objects,
        λ k b q. cc (cache k, q),
      ),
      tt,
      λ k. omega arith,
    )
    History-Holds
          (next_put {cs = cs} {ds = ds} {w = w} {w1 = w1} h arrange arranges arrange_batches
            arranges_batches chunks whole indexable distinct puts back) =
        let (holds, i, d) = History-Holds h in
        let held =
          put-Holds deps services user_id decodes shows plain arrange arranges arrange_batches
            arranges_batches chunks cs w (subst (All IsIndexable) whole indexable)
            (subst (IsDistinct id_of) whole distinct) (ap (λ p. p.0) puts)
            (ap (λ p. (services.table p.1).given_back) puts ∙ back) holds in
        (
          subst (Holds deps services user_id ds) (ap (λ p. p.1) puts) (
              subst
                (λ xs.
                  Holds deps services user_id xs
                    (put deps arrange arrange_batches (some user_id) chunks w).1)
                (sym whole) held),
          indexable,
          distinct,
        )
    History-Holds (next_get {cs = cs} {w = w} h arrivals arrive takes ctx from through matchers e) =
        let ((entries, filed, coherent), i, d) = History-Holds h in
        let (entries', objects, coherent') =
          get-OnlyCaches deps services arrivals arrive takes ctx from through matchers w coherent in
        (
          subst (Holds deps services user_id cs) e (
            (
              entries.0,
              entries.1,
              subst (λ (t : Table). Permᴰ t.entries entries.0) (sym entries') entries.2,
            ),
            (λ id. objects (chunk_name user_id id) ∙ filed id),
            coherent',
          ),
          i,
          d,
        )
