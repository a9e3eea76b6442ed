-- ===== src/Querier/Values.antt =====
-- The label values of several queriers.
use frankenstein.Prelude.{
  ◌≡◌, refl, ◌∙◌, Bool, false, ◌||◌, inl, inr, List, [], ◌∷◌, map, Option, none, some,
  if◌then◌else◌, arith,
}
use frankenstein.Prelude.Order.{Text, text_ord}
use frankenstein.Prelude.Dict.{insert}
use frankenstein.Prelude.Keyed.{count_key, IsDistinct, key_of, count-insert, insert-IsDistinct}
use frankenstein.Prelude.Result.{Result, ok, err, Error, Result-cases}
use frankenstein.Querier.{Querier, add_all, merge_values, merged_label_values}

abbrev pub is_among : Text → List Text → Bool
is_among v [] = false
is_among v (u ∷ vals) = text_ord.same u v || is_among v vals

count-add_all :
    (vals : List Text) (set : List (Text × Unit {0})) (v : Text)
    → IsDistinct key_of set
    → (count_key key_of v (add_all vals set)
        ≡ (if is_among v vals then 1 else count_key key_of v set))
      × IsDistinct key_of (add_all vals set)
count-add_all [] set v d = (refl, d)
count-add_all (u ∷ vals) set v d =
    let (c, d') = count-add_all vals (insert u tt set) v (insert-IsDistinct u tt set d) in
    (ground (arith, c, count-insert u v tt set d), d')

-- The first error among answers
abbrev pub first_error : List (Result (List Text)) → Option Error
first_error [] = none
first_error (err e ∷ answers) = some e
first_error (ok vals ∷ answers) = first_error answers

-- An answer has a value.
abbrev pub is_given : List (Result (List Text)) → Text → Bool
is_given [] v = false
is_given (err e ∷ answers) v = is_given answers v
is_given (ok vals ∷ answers) v = is_among v vals || is_given answers v

abbrev merge_answers :
    List (Result (List Text)) → List (Text × Unit {0}) → Result (List (Text × Unit {0}))
merge_answers [] set = ok set
merge_answers (err e ∷ answers) set = err e
merge_answers (ok vals ∷ answers) set = merge_answers answers (add_all vals set)

-- What merged answers are: the first error, or every value once.
abbrev Merges :
    List (Result (List Text))
    → List (Text × Unit {0})
    → Result (List (Text × Unit {0}))
    → Option Error
    → Type 0
Merges answers set r (some e) = r ≡ err e
Merges answers set r none =
    (merged : List (Text × Unit {0})) × (r ≡ ok merged)
    × ((v : Text)
        → count_key key_of v merged ≡ (if is_given answers v then 1 else count_key key_of v set))

merge_answers-Merges :
    (answers : List (Result (List Text))) (set : List (Text × Unit {0}))
    → IsDistinct key_of set
    → Merges answers set (merge_answers answers set) (first_error answers)
merge_answers-Merges [] set d = (set, refl, λ v. refl)
merge_answers-Merges (err e ∷ answers) set d = refl
merge_answers-Merges (ok vals ∷ answers) set d =
    go (first_error answers)
      (merge_answers-Merges answers (add_all vals set) (count-add_all vals set [] d).1)
  where
    go :
        (o : Option Error)
        → Merges answers (add_all vals set) (merge_answers answers (add_all vals set)) o
        → Merges (ok vals ∷ answers) set (merge_answers answers (add_all vals set)) o
    go (some e) h = h
    go none (merged, e, c) = (merged, e, λ v. ground (arith, c v, (count-add_all vals set v d).0))

module _ {W : Type 0} (name : Text) (w : W) where
  abbrev pub answers_of : List (Querier W) → List (Result (List Text))
  answers_of queriers = map (λ q. q.label_values name w) queriers

  merge_values-merge_answers :
      (queriers : List (Querier W)) (set : List (Text × Unit {0}))
      → merge_values name w queriers set ≡ merge_answers (answers_of queriers) set
  unfolding merge_values
  merge_values-merge_answers [] set = refl
  merge_values-merge_answers (q ∷ queriers) set = elim (Result-cases (q.label_values name w)) [
    | inl (e, p) ↦ rw (p, merge_values, merge_answers) refl
    | inr (vals, p) ↦
        rw (p, merge_values, merge_answers) (merge_values-merge_answers queriers (add_all vals set))
  ]

  -- What a merged querier answers
  abbrev pub Answers : List (Result (List Text)) → Result (List Text) → Option Error → Type 0
  Answers answers r (some e) = r ≡ err e
  Answers answers r none =
      (values : List Text) × (r ≡ ok values)
      × ((v : Text) → count_key (λ u. u) v values ≡ (if is_given answers v then 1 else 0))

  count_keys :
      (v : Text) (set : List (Text × Unit {0}))
      → count_key (λ u. u) v (map (λ entry. entry.0) set) ≡ count_key key_of v set
  unfolding count_key
  count_keys v [] = refl
  count_keys v (e ∷ set) = ground (arith, count_keys v set)

  -- MergeQuerier.LabelValuesForLabelName fails with the error of the first querier that fails, and if
  -- none fails, it returns every value that a querier has, once, and no other.
  pub merged_label_values-Answers :
      (queriers : List (Querier W))
      → let answers = answers_of queriers in
        Answers answers (merged_label_values name w queriers) (first_error answers)
  unfolding merged_label_values count_key
  merged_label_values-Answers queriers =
      go (first_error (answers_of queriers))
        (merge_answers-Merges (answers_of queriers) [] (λ k. omega arith))
    where
      go :
          (o : Option Error)
          → Merges (answers_of queriers) [] (merge_answers (answers_of queriers) []) o
          → Answers (answers_of queriers) (merged_label_values name w queriers) o
      go (some e) h = rw (merge_values-merge_answers queriers [] ∙ h, merged_label_values) refl
      go none (merged, e, c) = (
        map (λ entry. entry.0) merged,
        rw (merge_values-merge_answers queriers [] ∙ e, merged_label_values) refl,
        λ v. count_keys v merged ∙ c v,
      )
