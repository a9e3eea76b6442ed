-- ===== src/Ring/Lookup/Owner.antt =====
-- How `Get` finds the owner of a key.
use frankenstein.Prelude.{
  ℕ, suc, ◌≤◌, ◌<◌, ◌≡◌, refl, true, false, inl, inr, List, [], ◌∷◌, Option, none, some, arith, All,
  All-map, Bool-cases, ltb, leb, if◌then◌else◌, length, get_or,
}
use frankenstein.Prelude.Order.{Text, nat_ord, text_ord}
use frankenstein.Prelude.Dict.{lookup}
use frankenstein.Prelude.Sort.{IsSorted}
use frankenstein.Prelude.Search.{
  search_index, IsMonotone, search_index-Splits, position, Splits-position,
}
use frankenstein.Prelude.Result.{Result, ok, err, empty_ring}
use frankenstein.Ring.Model.{IngesterDesc, TokenDesc, Desc, token_of}
use frankenstein.Ring.Lookup.{search, get, zero_token, or_zero, above_key}

-- The owner by a scan along the ring from its start; `wrap` stands for the end of the ring.
abbrev pub scan : ℕ → TokenDesc → List TokenDesc → TokenDesc
scan key wrap [] = wrap
scan key wrap (t ∷ ts) = if ltb key t.token then t else scan key wrap ts

abbrev pub owner : ℕ → List TokenDesc → Option TokenDesc
owner key [] = none
owner key (t ∷ ts) = some (scan key t (t ∷ ts))

All-get_or :
    (P : TokenDesc → Type 0) (ts : List TokenDesc) (i : ℕ)
    → i < length ts
    → All P ts
    → P (get_or ts i zero_token)
All-get_or P [] i h a = absurd (omega arith)
All-get_or P (t ∷ ts) ℕ.zero h a = a.0
All-get_or P (t ∷ ts) (suc i) h a = All-get_or P ts i (omega arith) a.1

tokens-IsMonotone :
    (key : ℕ) (ts : List TokenDesc)
    → IsSorted token_of ts
    → IsMonotone (length ts) (λ x. above_key key (get_or ts x zero_token))
tokens-IsMonotone key [] s x y le lt e = absurd (omega arith)
tokens-IsMonotone key (t ∷ ts) s ℕ.zero ℕ.zero le lt e = e
tokens-IsMonotone key (t ∷ ts) s ℕ.zero (suc y) le lt e =
    ground (arith, All-get_or _ ts y (omega arith) s.0)
tokens-IsMonotone key (t ∷ ts) s (suc x) ℕ.zero le lt e = absurd (omega arith)
tokens-IsMonotone key (t ∷ ts) s (suc x) (suc y) le lt e =
    tokens-IsMonotone key ts s.1 x y (omega arith) (omega arith) e

search-position :
    (d : Desc) (key : ℕ)
    → IsSorted token_of d.tokens
    → search_index (length d.tokens) (λ x. above_key key (get_or d.tokens x zero_token))
      ≡ position (above_key key) d.tokens
search-position d key s =
    Splits-position (above_key key) zero_token d.tokens _
      (search_index-Splits (length d.tokens) _ (tokens-IsMonotone key d.tokens s))

-- What stands at the place where the scan for a key stops.
scan-position :
    (key : ℕ) (wrap : TokenDesc) (ts : List TokenDesc)
    → scan key wrap ts ≡ (
        if leb (length ts) (position (above_key key) ts)
        then wrap
        else get_or ts (position (above_key key) ts) zero_token)
scan-position key wrap [] = refl
scan-position key wrap (t ∷ ts) = ground (arith, scan-position key wrap ts)

-- What `Get` answers when it has an owner, and when there is none.
abbrev pub reply : Desc → Option TokenDesc → Result IngesterDesc
reply d none = err empty_ring
reply d (some t) = ok (or_zero (lookup t.ingester d.ingesters))

get-scan :
    (ingesters : List (Text × IngesterDesc)) (key : ℕ) (ts : List TokenDesc)
    → IsSorted token_of ts
    → let d : Desc = record { ingesters = ingesters; tokens = ts } in
      get d key ≡ reply d (owner key ts)
unfolding get search
get-scan ingesters key [] s = refl
get-scan ingesters key (t ∷ ts) s =
    rw (search-position (record { ingesters = ingesters; tokens = t ∷ ts }) key s)
      (ground (arith, scan-position key t (t ∷ ts)))

-- On a ring in order, for every key, `Get` returns the ingester that a scan of the whole ring finds,
-- and it fails exactly when the ring has no tokens.
pub get-owner :
    (d : Desc) (key : ℕ) → IsSorted token_of d.tokens → get d key ≡ reply d (owner key d.tokens)
get-owner d key s = get-scan d.ingesters key d.tokens s

-- The scan's token is above the key and no other token above the key comes before it, or no token
-- is above the key and it is the ring's first.
pub record IsNearest (key : ℕ) (first t : TokenDesc) (ts : List TokenDesc) : Type 0 where
  pub nearest : ltb key t.token ≡ true → All (λ u. ltb key u.token ≡ true → t.token ≤ u.token) ts
  pub wrapped : ltb key t.token ≡ false → (t ≡ first) × All (λ u. u.token ≤ key) ts

scan-IsNearest :
    (key : ℕ) (wrap : TokenDesc) (ts : List TokenDesc)
    → ltb key wrap.token ≡ false
    → IsSorted token_of ts
    → IsNearest key wrap (scan key wrap ts) ts
scan-IsNearest key wrap [] h s = record { nearest = λ e. tt; wrapped = λ e. (refl, tt) }
scan-IsNearest key wrap (t ∷ ts) h s = elim (Bool-cases (ltb key t.token)) [
  | inl e ↦ rw e (record {
    nearest = λ _. ((λ _. omega arith), All-map (λ u b _. ground arith) ts s.0);
    wrapped = λ f. cc;
  })
  | inr e ↦
      let rest = scan-IsNearest key wrap ts h s.1 in
      rw e (record {
        nearest = λ f. ((λ g. cc), rest.nearest f);
        wrapped = λ f. ((rest.wrapped f).0, (ground arith, (rest.wrapped f).1));
      })
]

-- On a ring in order, the owner of a key is the nearest token above it, and the ring's first token
-- for a key that no token is above.
pub owner-IsNearest :
    (key : ℕ) (t : TokenDesc) (ts : List TokenDesc)
    → IsSorted token_of (t ∷ ts)
    → IsNearest key t (scan key t (t ∷ ts)) (t ∷ ts)
owner-IsNearest key t ts s = elim (Bool-cases (ltb key t.token)) [
  | inl e ↦ rw e (record {
    nearest = λ _. ((λ _. omega arith), All-map (λ u b _. ground arith) ts s.0);
    wrapped = λ f. cc;
  })
  | inr e ↦ scan-IsNearest key t (t ∷ ts) e s
]
