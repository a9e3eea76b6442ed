-- ===== src/Ring/Model.antt =====
-- ring/model.go: the serialised state of the ring, and how an ingester is added and removed.
pub mod Tokens
pub mod Leave
use frankenstein.Prelude.{ℕ, List, [], ◌∷◌, ◌++◌, map, true, false, ltb}
use frankenstein.Prelude.Order.{Text, text_ord, nat_ord}
use frankenstein.Prelude.Dict.{insert, delete}
use frankenstein.Prelude.Sort.{Sorter}

-- The timestamp is a point in time, as a number.
pub record IngesterDesc : Type 0 where
  pub hostname : Text
  pub timestamp : ℕ

-- The token is a uint32.
pub record TokenDesc : Type 0 where
  pub token : ℕ
  pub ingester : Text

-- TokenDescs.Less compares by this.
abbrev pub token_of : TokenDesc → ℕ
token_of t = t.token

pub record Desc : Type 0 where
  pub ingesters : List (Text × IngesterDesc)
  pub tokens : List TokenDesc

abbrev pub new_desc : Desc
new_desc = record { ingesters = []; tokens = [] }

abbrev pub token_descs : Text → List ℕ → List TokenDesc
token_descs id tokens = map (λ token. record { token = token; ingester = id }) tokens

-- `now` is time.Now().
unfoldable pub add_ingester : Sorter token_of → ℕ → Desc → (id hostname : Text) → List ℕ → Desc
add_ingester sorter now d id hostname tokens = record {
  ingesters = insert id (record { hostname = hostname; timestamp = now }) d.ingesters;
  tokens = sorter.sort (d.tokens ++ token_descs id tokens);
}

-- The loops of `removeIngester`: what is left of the ring's tokens, from d.Tokens[i:] and tokens[j:].
unfoldable pub remove_tokens : List TokenDesc → List ℕ → List TokenDesc
remove_tokens [] tokens = []
remove_tokens (t ∷ ts) [] = t ∷ ts
remove_tokens (t ∷ ts) (token ∷ tokens) = elim (ltb t.token token) [
  | true ↦ t ∷ remove_tokens ts (token ∷ tokens)
  | false ↦ elim (ltb token t.token) [
    | true ↦ remove_tokens (t ∷ ts) tokens
    | false ↦ remove_tokens ts tokens
  ]
]

unfoldable pub remove_ingester : Desc → Text → List ℕ → Desc
remove_ingester d id tokens = record {
  ingesters = delete id d.ingesters;
  tokens = remove_tokens d.tokens tokens;
}
