-- ===== src/Ring/Lifecycle/Served.antt =====
-- What the lookups of ring/ring.go find in a ring that ingesters keep.
use frankenstein.Prelude.{
  ℕ, ◌≡◌, sym, ap, ◌∙◌, inl, inr, List, [], ◌∷◌, Option, some, All, All-map, Bool-cases, ltb,
}
use frankenstein.Prelude.Order.{Text, text_ord, nat_ord}
use frankenstein.Prelude.Dict.{lookup}
use frankenstein.Prelude.Sort.{Sorter}
use frankenstein.Prelude.Strict.{strict-IsSorted}
use frankenstein.Prelude.Result.{ok, ok-inj}
use frankenstein.Ring.Model.{Desc, IngesterDesc, TokenDesc, token_of}
use frankenstein.Ring.Model.Tokens.{number}
use frankenstein.Ring.Lookup.{get, or_zero}
use frankenstein.Ring.Lookup.Owner.{scan, owner, reply, get-owner}
use frankenstein.Ring.Lifecycle.{or_new}
use frankenstein.Ring.Lifecycle.Loop.{Running, State, Reach}
use frankenstein.Ring.Lifecycle.Held.{IsHeld, find_self}
use frankenstein.Ring.Lifecycle.Reached.{Reach-Holds}

All-scan :
    (P : TokenDesc → Type 0) (key : ℕ) (wrap : TokenDesc) (ts : List TokenDesc)
    → P wrap
    → All P ts
    → P (scan key wrap ts)
All-scan P key wrap [] w h = w
All-scan P key wrap (t ∷ ts) w h = elim (Bool-cases (ltb key t.token)) [
  | inl e ↦ rw e h.0
  | inr e ↦ rw e (All-scan P key wrap ts w h.1)
]

-- A token that the ring has is of a member, with its address.
abbrev IsServed : Desc → (Text → Option Running) → TokenDesc → Type 0
IsServed d running t =
    (m : Running) × (e : IngesterDesc) × (running t.ingester ≡ some m)
    × (lookup t.ingester d.ingesters ≡ some e)
    × (e.hostname ≡ m.registration.hostname)

owner_served :
    (d : Desc) (running : Text → Option Running) (held : IsHeld d running) (desc : IngesterDesc)
    (key : ℕ) (ts : List TokenDesc)
    → All (IsServed d running) ts
    → reply d (owner key ts) ≡ ok desc
    → (id : Text) × (m : Running) × (running id ≡ some m)
      × (desc.hostname ≡ m.registration.hostname)
owner_served d running held desc key [] a h = cc
owner_served d running held desc key (t ∷ ts) a h =
    let (m, e, r, p, same) = All-scan (IsServed d running) key t (t ∷ ts) a.0 a in
    (
      _,
      m,
      r,
      ap (λ (x : IngesterDesc). x.hostname) (ok-inj desc e (sym h ∙ ap (λ o. ok (or_zero o)) p))
          ∙ same,
    )

module _ (sorter : Sorter token_of) (numbers : Sorter number) where
  -- In every state that ingesters bring a ring to, whatever key Get is asked for, the ingester
  -- that it answers with is one that has started and was not taken out, with its address: one
  -- that runs, or one whose process has ended since its unregister failed. It is taken that an
  -- ingester's own tokens are all different, that none is one of another of these whose entry was
  -- lost, which generateTokens does not ensure, that none starts under the ID of another of
  -- these, and that a CAS that fails changes nothing.
  pub get_member :
      {s : State}
      → Reach sorter numbers s
      → (key : ℕ) (desc : IngesterDesc) → get (or_new s.ring) key ≡ ok desc
      → (id : Text) × (m : Running) × (s.members id ≡ some m)
        × (desc.hostname ≡ m.registration.hostname)
  get_member {s} h key desc e =
      let held = Reach-Holds sorter numbers h in
      let d = or_new s.ring in
      owner_served d s.members held desc key d.tokens
        (All-map
          (λ t found.
            let (m, r, i, (f, p)) = held.sound t.token t found in
            let (n, r', same) = held.entries t.ingester f p in (n, f, r', p, same))
          d.tokens (find_self held d.tokens held.strict))
        (sym (get-owner d key (strict-IsSorted token_of d.tokens held.strict)) ∙ e)
