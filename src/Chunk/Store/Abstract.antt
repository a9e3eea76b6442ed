-- ===== src/Chunk/Store/Abstract.antt =====
-- What the index promises, without entries, hashes and ranges: which chunks match a question. And
-- what the store relies on of DynamoDB: which entries it answers with.
pub mod Entries
pub mod Filed
pub mod Hours
pub mod Answers
pub mod Hash
pub mod Keys
pub mod Services
pub mod Batches
pub mod Puts
pub mod Reads
pub mod Held
pub mod History
pub mod Refines
pub mod Lookups
pub mod Ranges
pub mod Gathered
pub mod Get
pub mod Whole
pub mod Found
pub mod Kept
use frankenstein.Prelude.{
  All, ◌≡◌, ◌==◌, ℕ, ◌+◌, Bool, true, false, not, ◌&&◌, ◌||◌, List, [], ◌∷◌, ◌++◌, Option, none,
  some, if◌then◌else◌, map,
}
use frankenstein.Prelude.Int.{ℤ, same_ℤ}
use frankenstein.Prelude.Order.{Text, text_ord}
use frankenstein.Prelude.Dict.{lookup}
use frankenstein.Prelude.Result.{ok, err}
use frankenstein.Model.{Metric, LabelMatcher, metric_name_label}
use frankenstein.Chunk.Types.{Chunk, id_of}
use frankenstein.Prelude.Distinct.{passing}
use frankenstein.Chunk.Buckets.{big_buckets}
use frankenstein.Chunk.Store.{Deps, WriteRequest, Item, QueryInput, stored}
use frankenstein.Chunk.Store.Index.{read_item, kept}

-- What is not indexed: the JSON leaves the bytes out.
abbrev pub bare : {Time : Type 0} → Chunk Time → Chunk Time
bare c = record c { bytes = [] }

-- The chunks that pass a test, as the index returns them.
abbrev pub answer : {Time : Type 0} → (Chunk Time → Bool) → List (Chunk Time) → List (Chunk Time)
answer p cs = map bare (passing id_of p cs)

abbrev pub has_hour : ℤ → List ℤ → Bool
has_hour h [] = false
has_hour h (i ∷ hours) = same_ℤ i h || has_hour h hours

abbrev pub is_called : {Time : Type 0} → Text → Chunk Time → Bool
is_called name c = elim (lookup metric_name_label c.metric) [
  | none ↦ false
  | some n ↦ text_ord.same n name
]

-- Entries lie between two bounds, both counted, where there are bounds.
abbrev pub within : Option (List ℕ × List ℕ) → List ℕ → Bool
within none x = true
within (some (lo, hi)) x = not (text_ord.less x lo) && not (text_ord.less hi x)

-- The key condition of a QueryInput on an entry
abbrev pub is_selected : QueryInput → WriteRequest → Bool
is_selected input r =
    text_ord.same r.hash_value input.hash_value && within input.range r.range_value

abbrev pub selected : QueryInput → List WriteRequest → List WriteRequest
selected input [] = []
selected input (r ∷ rs) = if is_selected input r then r ∷ selected input rs else selected input rs

-- A text without null bytes, which is what the library for range values takes
abbrev pub IsPlain : Text → Type 0
IsPlain = All (λ b. (b == 0) ≡ false)

abbrev pub HasPlainLabels : Metric → Type 0
HasPlainLabels = All (λ (l : Text × Text). IsPlain l.0 × IsPlain l.1)

-- A range value without null bytes in its texts decodes to what was encoded.
abbrev pub Decodes : {Time W : Type 0} → Deps Time W → Type 0
Decodes deps =
    (l v id : Text)
    → IsPlain l
    → IsPlain v
    → IsPlain id
    → deps.decode (deps.encode l v id) ≡ ok (l, v, id)

module _ {Time W : Type 0} (deps : Deps Time W) where
  -- A label, other than the name, that a matcher accepts; any such label where there is no matcher.
  abbrev pub accepts : Option LabelMatcher → Text → Text → Bool
  accepts none k v = true
  accepts (some m) k v = text_ord.same k m.name && deps.matches m v

  abbrev pub passes : Option LabelMatcher → Text → Text → Bool
  passes matcher k v = not (text_ord.same k metric_name_label) && accepts matcher k v

  -- How many labels pass.
  abbrev pub count_labels : Option LabelMatcher → Metric → ℕ
  count_labels matcher [] = 0
  count_labels matcher ((k, v) ∷ metric) =
      (if passes matcher k v then 1 else 0) + count_labels matcher metric

  abbrev pub any_label : Option LabelMatcher → Metric → Bool
  any_label matcher [] = false
  any_label matcher ((k, v) ∷ metric) = passes matcher k v || any_label matcher metric

  -- What the index holds of a chunk for a question about an hour.
  abbrev pub is_hit : Text → ℤ → Option LabelMatcher → Chunk Time → Bool
  is_hit name hour matcher c =
      is_called name c
      && (has_hour hour (big_buckets deps.unix c.from c.through) && any_label matcher c.metric)

  -- What an entry gives to the chunk set of a query.
  abbrev pub shown : Option LabelMatcher → WriteRequest → List (Chunk Time)
  shown matcher r = elim (read_item deps (stored r)) [
    | err e ↦ []
    | ok read ↦ kept deps matcher read
  ]

  abbrev pub all_shown : Option LabelMatcher → List WriteRequest → List (Chunk Time)
  all_shown matcher [] = []
  all_shown matcher (r ∷ rs) = shown matcher r ++ all_shown matcher rs

  -- A range includes the entries of every label that passes.
  abbrev pub Includes : Option (List ℕ × List ℕ) → Option LabelMatcher → Type 0
  Includes range matcher =
      (k v id : Text)
      → IsPlain k
      → IsPlain v
      → IsPlain id
      → passes matcher k v ≡ true
      → within range (deps.encode k v id) ≡ true
