-- ===== src/Chunk/Store/Abstract/Ranges.antt =====
-- chunk/chunk_store.go: `next`, and the range of index entries that a matcher can match.
use mathlib.Core.Path.{subst}
use frankenstein.Prelude.{
  ℕ, ◌+◌, ◌≤◌, ◌≡◌, refl, ap, ◌∙◌, inl, inr, Bool, true, false, not, [], ◌∷◌, some, if◌then◌else◌,
  arith, Bool-cases, Nothing, ◌%◌, ltb,
}
use frankenstein.Prelude.Order.{Text, text_ord, text_less}
use frankenstein.Prelude.Result.{ok, ◌>>=◌}
use frankenstein.Model.{LabelMatcher}
use frankenstein.Chunk.Matchers.{is_equal}
use frankenstein.Chunk.Store.{Deps}
use frankenstein.Chunk.Store.Query.{next, byte_string, range_bounds}
use frankenstein.Chunk.Store.Abstract.{passes, IsPlain}
use frankenstein.Chunk.Store.Abstract.Lookups.{Fits}

-- Not empty, and the last byte is at most 195, as it is in UTF-8.
abbrev pub EndsLow : Text → Type 0
EndsLow [] = Nothing
EndsLow (b ∷ []) = b ≤ 195
EndsLow (b ∷ c ∷ s) = EndsLow (c ∷ s)

text_less-cons : (b : ℕ) (s t : Text) → text_less (b ∷ s) (b ∷ t) ≡ text_less s t
text_less-cons b s t = ground arith

byte_string-above : (b : ℕ) → b ≤ 195 → text_less (b ∷ []) (byte_string ((b + 1) % 256)) ≡ true
byte_string-above b h = ground arith

byte_string-IsPlain : (b : ℕ) → b ≤ 195 → IsPlain (byte_string ((b + 1) % 256))
byte_string-IsPlain b h = elim (Bool-cases (ltb ((b + 1) % 256) 128)) [
  | inl e ↦ rw e (ground arith, tt)
  | inr e ↦ rw e (ground arith, (ground arith, tt))
]

-- `next` of a text that is not empty, ends in a byte of at most 195 and has no null byte succeeds, and
-- gives a greater text with no null byte.
pub next-above :
    (s : Text)
    → EndsLow s
    → IsPlain s
    → (t : Text) × (next s ≡ ok t) × (text_ord.less s t ≡ true) × IsPlain t
unfolding next
next-above [] h p = elim h [ ]
next-above (b ∷ []) h p =
    (byte_string ((b + 1) % 256), refl, byte_string-above b h, byte_string-IsPlain b h)
next-above (b ∷ c ∷ s) h p =
    let (t, e, above, plain) = next-above (c ∷ s) h p.1 in
    (
      b ∷ t,
      ap (λ r. r >>= λ rest. ok (b ∷ rest)) e,
      text_less-cons b (c ∷ s) t ∙ above,
      (p.0, plain),
    )

-- The order of tuples of three texts
abbrev pub tuple_less : Text × Text × Text → Text × Text × Text → Bool
tuple_less (l, v, i) (l', v', i') =
    if text_less l l'
    then true
    else if text_less l' l
    then false
    else if text_less v v'
    then true
    else if text_less v' v
    then false
    else text_less i i'

abbrev pub HasPlainTuple : Text × Text × Text → Type 0
HasPlainTuple (l, v, i) = IsPlain l × IsPlain v × IsPlain i

-- The order of range values is that of the tuples, where no text has a null byte.
abbrev pub KeepsOrder : {Time W : Type 0} → Deps Time W → Type 0
KeepsOrder deps =
    (t u : Text × Text × Text)
    → HasPlainTuple t
    → HasPlainTuple u
    → tuple_less t u ≡ true
    → text_ord.less (deps.encode t.0 t.1 t.2) (deps.encode u.0 u.1 u.2) ≡ true

module _ {Time W : Type 0} (deps : Deps Time W) (ordered : KeepsOrder deps) where
  not_below :
      (t u : Text × Text × Text)
      → HasPlainTuple t
      → HasPlainTuple u
      → tuple_less t u ≡ true
      → not (text_less (deps.encode u.0 u.1 u.2) (deps.encode t.0 t.1 t.2)) ≡ true
  not_below t u p q h = ground (
    arith,
    ordered t u p q h,
    text_ord.trans (deps.encode t.0 t.1 t.2) (deps.encode u.0 u.1 u.2) (deps.encode t.0 t.1 t.2),
    text_ord.irrefl (deps.encode t.0 t.1 t.2),
  )

  from_value :
      (l v i : Text)
      → HasPlainTuple (l, v, i)
      → not (text_less (deps.encode l v i) (deps.encode l v [])) ≡ true
  from_value l v [] p = rw (text_ord.irrefl (deps.encode l v [])) refl
  from_value l v (b ∷ i) p =
      not_below (l, v, []) (l, v, b ∷ i) (p.0, p.1, tt) p
        (ground (arith, text_ord.irrefl l, text_ord.irrefl v))

  from_label :
      (l v i : Text)
      → HasPlainTuple (l, v, i)
      → not (text_less (deps.encode l v i) (deps.encode l [] [])) ≡ true
  from_label l [] i p = from_value l [] i p
  from_label l (b ∷ v) i p =
      not_below (l, [], []) (l, b ∷ v, i) (p.0, tt, tt) p (ground (arith, text_ord.irrefl l))

  module _ (m : LabelMatcher) (plain : IsPlain m.name × IsPlain m.value)
      (equals : (v : Text) → is_equal m.mtype ≡ true → deps.matches m v ≡ true → v ≡ m.value)
      (low : EndsLow (if is_equal m.mtype then m.value else m.name)) where
    accepted :
        (k v : Text) → passes deps (some m) k v ≡ true → (k ≡ m.name) × (deps.matches m v ≡ true)
    accepted k v h = ((text_ord.same_iff k m.name).0 (ground (arith, h)), ground (arith, h))

    by_value : is_equal m.mtype ≡ true → Fits deps m
    unfolding range_bounds
    by_value e =
        let (t, nexts, above, plain_t) =
          next-above m.value (subst (λ b. EndsLow (if b then m.value else m.name)) e low) plain.1 in
        (
          (deps.encode m.name m.value [], deps.encode m.name t []),
          rw e (rw nexts refl),
          λ k v id pk pv pid h.
              let (named, matched) = accepted k v h in
              rw (named, equals v e matched)
                (ground (
                  arith,
                  from_value m.name m.value id (plain.0, plain.1, pid),
                  not_below (m.name, m.value, id) (m.name, t, []) (plain.0, plain.1, pid)
                      (plain.0, plain_t, tt) (ground (arith, above, text_ord.irrefl m.name)),
                )),
        )

    by_label : is_equal m.mtype ≡ false → Fits deps m
    unfolding range_bounds
    by_label e =
        let (t, nexts, above, plain_t) =
          next-above m.name (subst (λ b. EndsLow (if b then m.value else m.name)) e low) plain.0 in
        (
          (deps.encode m.name [] [], deps.encode t [] []),
          rw e (rw nexts refl),
          λ k v id pk pv pid h.
              let (named, matched) = accepted k v h in
              rw named (
                ground (
                  arith,
                  from_label m.name v id (plain.0, pv, pid),
                  not_below (m.name, v, id) (t, [], []) (plain.0, pv, pid) (plain_t, tt, tt)
                      (ground (arith, above)),
                )),
        )

    -- The range of a matcher includes the index entries of every label that it accepts, when the value of
    -- an equality matcher, and the label of any other, is not empty and ends in a byte of at most 195;
    -- when neither its label nor its value has a null byte, and an equality matcher accepts only its
    -- value; and when the encoding keeps the order of tuples without null bytes.
    pub range_bounds-Fits : Fits deps m
    range_bounds-Fits = elim (Bool-cases (is_equal m.mtype)) [
      | inl e ↦ by_value e
      | inr e ↦ by_label e
    ]
