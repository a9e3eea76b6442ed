-- ===== src/Ring/Lifecycle/Left.antt =====
-- An ingester that leaves a ring, which holds what the members have.
use mathlib.Core.Path.{subst}
use frankenstein.Prelude.{
  ℕ, ◌≡◌, sym, ap, ◌∙◌, true, false, none, some, Option, if◌then◌else◌, inl, inr, Bool-cases,
  some-inj,
}
use frankenstein.Prelude.Order.{Text, text_ord, nat_ord}
use frankenstein.Prelude.Dict.{lookup, lookup-delete}
use frankenstein.Prelude.Sort.{find}
use frankenstein.Prelude.Strict.{strict-IsSorted}
use frankenstein.Ring.Model.{Desc, IngesterDesc, TokenDesc, token_of, remove_ingester}
use frankenstein.Ring.Model.Tokens.{number, is_in, find-remove_tokens, remove_tokens-IsStrict}
use frankenstein.Ring.Lifecycle.Loop.{Running, set_running}
use frankenstein.Ring.Lifecycle.Held.{IsHeld, owned_by}

module _ (d : Desc) (running : Text → Option Running) (held : IsHeld d running) (id : Text)
    (m : Running) (runs : running id ≡ some m) where
  abbrev left : Desc
  left = remove_ingester d id m.tokens

  abbrev pub without : Text → Option Running
  without = set_running id none running

  kept :
      (j : Text) (n : Running)
      → without j ≡ some n
      → (text_ord.same id j ≡ false) × (running j ≡ some n)
  kept j n q = elim (Bool-cases (text_ord.same id j)) [
    | inl s ↦ cc (rw s at q)
    | inr s ↦ (s, rw s at q)
  ]

  left_tokens :
      (k : ℕ)
      → find token_of k left.tokens ≡ (if is_in k m.tokens then none else find token_of k d.tokens)
  unfolding remove_ingester
  left_tokens k =
      find-remove_tokens k d.tokens m.tokens held.strict
        (strict-IsSorted number m.tokens (held.own id m runs).1)

  left_entry :
      (j : Text)
      → lookup j left.ingesters ≡ (if text_ord.same id j then none else lookup j d.ingesters)
  unfolding remove_ingester
  left_entry j = lookup-delete id j d.ingesters

  left_entry_kept :
      (j : Text) (e : IngesterDesc)
      → lookup j left.ingesters ≡ some e
      → (text_ord.same id j ≡ false) × (lookup j d.ingesters ≡ some e)
  left_entry_kept j e p = elim (Bool-cases (text_ord.same id j)) [
    | inl s ↦ cc (rw s at (sym (left_entry j) ∙ p))
    | inr s ↦ (s, rw s at (sym (left_entry j) ∙ p))
  ]

  left_sound :
      (k : ℕ) (t : TokenDesc)
      → find token_of k left.tokens ≡ some t
      → (n : Running) × (without t.ingester ≡ some n)
        × (is_in k n.tokens ≡ true)
        × ((e : IngesterDesc) × (lookup t.ingester left.ingesters ≡ some e))
  left_sound k t q = elim (Bool-cases (is_in k m.tokens)) [
    | inl i ↦ cc (rw i at (sym (left_tokens k) ∙ q))
    | inr i ↦
        let (n, r, ks, (e, p)) = held.sound k t (rw i at (sym (left_tokens k) ∙ q)) in
        elim (Bool-cases (text_ord.same id t.ingester)) [
          | inl s ↦
              let is_m =
                some-inj n m
                  (sym r ∙ ap running (sym ((text_ord.same_iff id t.ingester).0 s)) ∙ runs) in
              cc (subst (λ (x : Running). is_in k x.tokens ≡ true) is_m ks, i)
          | inr s ↦ (n, rw s r, ks, (e, left_entry t.ingester ∙ rw s p))
        ]
  ]

  left_complete :
      (j : Text) (n : Running) (e : IngesterDesc) (k : ℕ)
      → without j ≡ some n
      → lookup j left.ingesters ≡ some e
      → is_in k n.tokens ≡ true
      → find token_of k left.tokens ≡ some (owned_by j k)
  left_complete j n e k q p i =
      let (s, r) = kept j n q in
      let (s', p') = left_entry_kept j e p in
      elim (Bool-cases (is_in k m.tokens)) [
        | inl his ↦ cc ((text_ord.same_iff id j).1 (held.apart id j m n k runs r his i), s)
        | inr other ↦ left_tokens k ∙ rw other (held.complete j n e k r p' i)
      ]

  left_entries :
      (j : Text) (e : IngesterDesc)
      → lookup j left.ingesters ≡ some e
      → (n : Running) × (without j ≡ some n) × (e.hostname ≡ n.registration.hostname)
  left_entries j e p =
      let (s, p') = left_entry_kept j e p in let (n, r, h) = held.entries j e p' in (n, rw s r, h)

  pub remove_ingester-IsHeld : IsHeld left without
  unfolding remove_ingester
  remove_ingester-IsHeld = record {
    strict = remove_tokens-IsStrict d.tokens m.tokens held.strict;
    own = λ j n q. held.own j n (kept j n q).1;
    apart = λ i j n o k q r. held.apart i j n o k (kept i n q).1 (kept j o r).1;
    sound = left_sound;
    complete = left_complete;
    entries = left_entries;
  }
