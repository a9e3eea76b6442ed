-- ===== src/Ring/Lifecycle/Held.antt =====
-- What every ingester's entry and tokens in the ring have to do with the members: the ingesters
-- that have started and were not taken out, whether they still run or not.
use mathlib.Core.Path.{subst}
use frankenstein.Prelude.{
  ℕ, ◌≡◌, refl, sym, ap, ◌∙◌, true, false, List, [], ◌∷◌, ◌++◌, Option, none, some, if◌then◌else◌,
  arith, inl, inr, Bool-cases, All, All-zip, All-map, some-inj,
}
use frankenstein.Prelude.Order.{Text, text_ord, nat_ord}
use frankenstein.Prelude.Dict.{lookup, lookup-insert}
use frankenstein.Prelude.Sort.{Sorter, IsBelow, IsStrict, find}
use frankenstein.Prelude.Strict.{find_head}
use frankenstein.Ring.Model.{Desc, IngesterDesc, TokenDesc, token_of, token_descs, add_ingester}
use frankenstein.Ring.Model.Tokens.{number, is_in}
use frankenstein.Ring.Model.Leave.{AreFresh, find-joined, joined-IsStrict}
use frankenstein.Ring.Lifecycle.Loop.{Running}

abbrev pub owned_by : Text → ℕ → TokenDesc
owned_by id k = record { token = k; ingester = id }

-- No two members share a token.
abbrev pub AreApart : (Text → Option Running) → Type 0
AreApart running =
    (i j : Text) (m n : Running) (k : ℕ)
    → running i ≡ some m
    → running j ≡ some n
    → is_in k m.tokens ≡ true
    → is_in k n.tokens ≡ true
    → i ≡ j

-- A ring, and the members: the ring has no token twice; its tokens and entries are those of members;
-- and a member that has an entry has all its tokens.
pub record IsHeld (d : Desc) (running : Text → Option Running) : Type 0 where
  pub strict : IsStrict token_of d.tokens
  pub own :
      (id : Text) (m : Running)
      → running id ≡ some m
      → (m.registration.id ≡ id) × IsStrict number m.tokens
  pub apart : AreApart running
  pub sound :
      (k : ℕ) (t : TokenDesc)
      → find token_of k d.tokens ≡ some t
      → (m : Running) × (running t.ingester ≡ some m)
        × (is_in k m.tokens ≡ true)
        × ((e : IngesterDesc) × (lookup t.ingester d.ingesters ≡ some e))
  pub complete :
      (id : Text) (m : Running) (e : IngesterDesc) (k : ℕ)
      → running id ≡ some m
      → lookup id d.ingesters ≡ some e
      → is_in k m.tokens ≡ true
      → find token_of k d.tokens ≡ some (owned_by id k)
  pub entries :
      (id : Text) (e : IngesterDesc)
      → lookup id d.ingesters ≡ some e
      → (m : Running) × (running id ≡ some m) × (e.hostname ≡ m.registration.hostname)

module _ (sorter : Sorter token_of) (now : ℕ) (d : Desc) (running : Text → Option Running)
    (held : IsHeld d running) (id : Text) (m : Running) (id_of : m.registration.id ≡ id)
    (no_entry : lookup id d.ingesters ≡ none) (js_strict : IsStrict number m.tokens)
    (fresh : AreFresh d.tokens m.tokens) (running' : Text → Option Running)
    (here : running' id ≡ some m)
    (elsewhere : (j : Text) → text_ord.same id j ≡ false → running' j ≡ running j)
    (apart' : AreApart running') where
  abbrev new_entry : IngesterDesc
  new_entry = record { hostname = m.registration.hostname; timestamp = now }

  abbrev added : Desc
  added = add_ingester sorter now d id m.registration.hostname m.tokens

  added_tokens :
      (k : ℕ)
      → find token_of k added.tokens
        ≡ (if is_in k m.tokens then some (owned_by id k) else find token_of k d.tokens)
  unfolding add_ingester
  added_tokens =
      find-joined d.tokens m.tokens id held.strict js_strict fresh added.tokens
        (sorter.sort-perm (d.tokens ++ token_descs id m.tokens))

  added_entry :
      (j : Text)
      → lookup j added.ingesters
        ≡ (if text_ord.same id j then some new_entry else lookup j d.ingesters)
  unfolding add_ingester
  added_entry j = lookup-insert id j new_entry d.ingesters

  -- An ingester with an entry in the old ring is another.
  other : (j : Text) (e : IngesterDesc) → lookup j d.ingesters ≡ some e → text_ord.same id j ≡ false
  other j e p = elim (Bool-cases (text_ord.same id j)) [
    | inl s ↦ cc ((text_ord.same_iff id j).0 s, no_entry, p)
    | inr s ↦ s
  ]

  added_sound :
      (k : ℕ) (t : TokenDesc)
      → find token_of k added.tokens ≡ some t
      → (n : Running) × (running' t.ingester ≡ some n)
        × (is_in k n.tokens ≡ true)
        × ((e : IngesterDesc) × (lookup t.ingester added.ingesters ≡ some e))
  added_sound k t q = elim (Bool-cases (is_in k m.tokens)) [
    | inl i ↦
        let whose = some-inj (owned_by id k) t (sym (added_tokens k ∙ rw i refl) ∙ q) in
        subst
          (λ u.
            (n : Running) × (running' u.ingester ≡ some n)
            × (is_in k n.tokens ≡ true)
            × ((e : IngesterDesc) × (lookup u.ingester added.ingesters ≡ some e)))
          whose
          (m, here, i, (new_entry, added_entry id ∙ rw ((text_ord.same_iff id id).1 refl) refl))
    | inr i ↦
        let (n, r, ks, (e, p)) = held.sound k t (sym (added_tokens k ∙ rw i refl) ∙ q) in
        let away = other t.ingester e p in
        (n, elsewhere t.ingester away ∙ r, ks, (e, added_entry t.ingester ∙ rw away p))
  ]

  added_complete :
      (j : Text) (n : Running) (e : IngesterDesc) (k : ℕ)
      → running' j ≡ some n
      → lookup j added.ingesters ≡ some e
      → is_in k n.tokens ≡ true
      → find token_of k added.tokens ≡ some (owned_by j k)
  added_complete j n e k q p i = elim (Bool-cases (text_ord.same id j)) [
    | inl s ↦
        let same = (text_ord.same_iff id j).0 s in
        let is_m = some-inj n m (sym q ∙ ap running' (sym same) ∙ here) in
        let mine = subst (λ (r : Running). is_in k r.tokens ≡ true) is_m i in
        subst (λ i. find token_of k added.tokens ≡ some (owned_by i k)) same
          (added_tokens k ∙ rw mine refl)
    | inr s ↦ elim (Bool-cases (is_in k m.tokens)) [
      | inl mine ↦ cc ((text_ord.same_iff id j).1 (apart' id j m n k here q mine i), s)
      | inr not_mine ↦
          added_tokens k
          ∙ rw not_mine (
              held.complete j n e k (sym (elsewhere j s) ∙ q) (sym (added_entry j ∙ rw s refl) ∙ p)
                i)
    ]
  ]

  added_entries :
      (j : Text) (e : IngesterDesc)
      → lookup j added.ingesters ≡ some e
      → (n : Running) × (running' j ≡ some n) × (e.hostname ≡ n.registration.hostname)
  added_entries j e p = elim (Bool-cases (text_ord.same id j)) [
    | inl s ↦
        let same = (text_ord.same_iff id j).0 s in
        (
          m,
          ap running' (sym same) ∙ here,
          ap (λ (o : IngesterDesc). o.hostname)
              (some-inj e new_entry (sym p ∙ added_entry j ∙ rw s refl)),
        )
    | inr s ↦
        let (n, r, h) = held.entries j e (sym (added_entry j ∙ rw s refl) ∙ p) in
        (n, elsewhere j s ∙ r, h)
  ]

  added_own :
      (j : Text) (n : Running)
      → running' j ≡ some n
      → (n.registration.id ≡ j) × IsStrict number n.tokens
  added_own j n q = elim (Bool-cases (text_ord.same id j)) [
    | inl s ↦
        let same = (text_ord.same_iff id j).0 s in
        subst (λ (r : Running). (r.registration.id ≡ j) × IsStrict number r.tokens)
          (some-inj m n (sym here ∙ ap running' same ∙ q)) (id_of ∙ same, js_strict)
    | inr s ↦ held.own j n (sym (elsewhere j s) ∙ q)
  ]

  pub add_ingester-IsHeld : IsHeld added running'
  unfolding add_ingester
  add_ingester-IsHeld = record {
    strict =
        joined-IsStrict d.tokens m.tokens id held.strict js_strict fresh added.tokens
          (sorter.sort-perm (d.tokens ++ token_descs id m.tokens))
          (sorter.sort-IsSorted (d.tokens ++ token_descs id m.tokens));
    own = added_own;
    apart = apart';
    sound = added_sound;
    complete = added_complete;
    entries = added_entries;
  }

module _ {d : Desc} {running : Text → Option Running} (held : IsHeld d running) where
  skip :
      (t u : TokenDesc) (ts : List TokenDesc)
      → IsBelow token_of t u
      → find token_of u.token ts ≡ some u
      → find token_of u.token (t ∷ ts) ≡ some u
  skip t u ts below e = ground (arith, below, e)

  pub find_self :
      (ts : List TokenDesc) → IsStrict token_of ts → All (λ t. find token_of t.token ts ≡ some t) ts
  find_self [] s = tt
  find_self (t ∷ ts) s = (
    find_head token_of t ts,
    All-zip (λ u below e. skip t u ts below e) ts s.0 (find_self ts s.1),
  )

  -- No token of the ring is one of a member without an entry.
  pub AreFresh-no_entry :
      (id : Text) (m : Running)
      → running id ≡ some m
      → lookup id d.ingesters ≡ none
      → AreFresh d.tokens m.tokens
  AreFresh-no_entry id m r no_entry =
      All-map
        (λ t found. elim (Bool-cases (is_in t.token m.tokens)) [
          | inr i ↦ i
          | inl i ↦
              let (n, q, j, (e, p)) = held.sound t.token t found in
              cc (held.apart id t.ingester m n t.token r q i j, no_entry, p)
        ])
        d.tokens (find_self d.tokens held.strict)
