-- ===== src/Ring/Lifecycle/Loop.antt =====
-- ring/ingester_lifecycle.go: the loops of many ingesters that share a ring.
use frankenstein.Prelude.{
  ℕ, ◌≡◌, Bool, ◌||◌, Bool-cases, inl, inr, true, false, List, Option, none, some, if◌then◌else◌,
}
use frankenstein.Prelude.Order.{Text, text_ord, nat_ord}
use frankenstein.Prelude.Dict.{lookup}
use frankenstein.Prelude.Sort.{Sorter, IsStrict}
use frankenstein.Ring.Model.{Desc, token_of}
use frankenstein.Ring.Model.Tokens.{number, is_in}
use frankenstein.Ring.Consul.{Outcome}
use frankenstein.Ring.Lifecycle.{Registration, or_new, pick_tokens, heartbeat, unregister}

-- An ingester whose loop is past pickTokens, with the tokens that it keeps
pub record Running : Type 0 where
  pub registration : Registration
  pub tokens : List ℕ

-- The value in Consul; by their IDs, the ingesters that have started and have not been taken out of the
-- ring; and those of them that run no more, since their process has ended before that.
pub record State : Type 0 where
  pub ring : Option Desc
  pub members : Text → Option Running
  pub gone : Text → Bool

-- An ingester that runs
abbrev pub live : State → Text → Option Running
live s id = if s.gone id then none else s.members id

pub live_member : (s : State) (id : Text) (m : Running) → live s id ≡ some m → s.members id ≡ some m
live_member s id m e = elim (Bool-cases (s.gone id)) [ inl g ↦ cc (rw g at e) | inr g ↦ rw g at e ]

-- What a CAS that ends leaves of a value: the callback's, where it returns one, or else the old one.
abbrev pub swapped : Outcome Desc → Option Desc → Option Desc
swapped o ring = elim o.error [
  | some e ↦ ring
  | none ↦ elim o.out [ none ↦ ring | some d ↦ some d ]
]

abbrev pub set_running : Text → Option Running → (Text → Option Running) → Text → Option Running
set_running id m f k = if text_ord.same id k then m else f k

module _ (sorter : Sorter token_of) (numbers : Sorter number) where
  -- The start of `loop`: the CAS of pickTokens, with the numbers of the random source; `none` if they
  -- run out.
  unfoldable pub start_loop : Registration → List ℕ → ℕ → State → Option State
  start_loop r randoms now s = elim (pick_tokens sorter numbers r randoms now s.ring) [
    | none ↦ none
    | some (tokens, o) ↦ some (record {
      ring = swapped o s.ring;
      members = set_running r.id (some (record { registration = r; tokens = tokens })) s.members;
      gone = s.gone;
    })
  ]

  -- A round of the loop of `heartbeat`, at a tick.
  unfoldable pub tick : Running → ℕ → State → State
  tick m now s = record s {
    ring = swapped (heartbeat sorter numbers m.registration now m.tokens s.ring) s.ring;
  }

  -- The end of `loop`, when Unregister has closed `quit`: the deferred CAS of unregister. It takes
  -- effect, or it fails, and then log.Fatalf ends the process and the ring stays as it is.
  unfoldable pub end_loop : Bool → Running → State → State
  end_loop true m s = record {
    ring = swapped (unregister sorter numbers m.registration m.tokens s.ring) s.ring;
    members = set_running m.registration.id none s.members;
    gone = s.gone;
  }
  end_loop false m s = record s { gone = λ id. text_ord.same m.registration.id id || s.gone id }

  -- The states that ingesters with different IDs bring a ring to, from an empty one, each CAS in one
  -- step. A CAS that fails changes nothing. An ingester starts only under an ID that is not that of a
  -- member, and its tokens are as the random source makes them when it gives no number twice to an
  -- ingester, and no number of a member whose entry the ring has lost.
  pub data Reach : State → Type 0 where
    nothing : Reach (record { ring = none; members = λ id. none; gone = λ id. false })
    starts :
        {s s1 : State}
        → Reach s
        → (r : Registration) (randoms : List ℕ) (now : ℕ) (tokens : List ℕ) → s.members r.id ≡ none
        → start_loop r randoms now s ≡ some s1
        → s1.members r.id ≡ some (record { registration = r; tokens = tokens })
        → IsStrict number tokens
        → ((id : Text) (m : Running) (k : ℕ)
            → s.members id ≡ some m
            → lookup id (or_new s.ring).ingesters ≡ none
            → is_in k m.tokens ≡ true
            → is_in k tokens ≡ false)
        → Reach s1
    ticks :
        {s s1 : State}
        → Reach s
        → (id : Text) (m : Running) (now : ℕ) → live s id ≡ some m
        → tick m now s ≡ s1
        → Reach s1
    ends :
        {s s1 : State}
        → Reach s
        → (taken : Bool) (id : Text) (m : Running) → live s id ≡ some m
        → end_loop taken m s ≡ s1
        → Reach s1
    -- Consul restarts and has no ring.
    loses : {s s1 : State} → Reach s → record s { ring = none } ≡ s1 → Reach s1
