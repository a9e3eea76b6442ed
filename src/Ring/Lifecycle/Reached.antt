-- ===== src/Ring/Lifecycle/Reached.antt =====
-- ring/ingester_lifecycle.go: the ring in every state that ingesters bring it to, and how their
-- heartbeats give it back when Consul has lost it.
use mathlib.Core.Path.{subst}
use frankenstein.Prelude.{
  ℕ, ◌≡◌, refl, sym, ap, ◌∙◌, true, false, none, some, Option, List, [], ◌∷◌, inl, inr, Member,
  Option-cases, Bool-cases, ◌⊎◌, ◌↔◌, if◌then◌else◌,
}
use frankenstein.Prelude.Order.{Text, text_ord, nat_ord}
use frankenstein.Prelude.Dict.{lookup}
use frankenstein.Prelude.Sort.{Sorter, find}
use frankenstein.Ring.Model.{IngesterDesc, token_of}
use frankenstein.Ring.Model.Tokens.{number, is_in}
use frankenstein.Ring.Lifecycle.{or_new}
use frankenstein.Ring.Lifecycle.Fresh.{heartbeat_lem, refreshed}
use frankenstein.Ring.Lifecycle.Loop.{
  Running, State, live, live_member, tick, Reach, nothing, starts, ticks, ends, loses,
}
use frankenstein.Ring.Lifecycle.Held.{owned_by}
use frankenstein.Ring.Lifecycle.Shared.{
  Holds, empty-IsHeld, tick-Holds, start_loop-Holds, end_loop-Holds,
}

module _ (sorter : Sorter token_of) (numbers : Sorter number) where
  -- In every state that ingesters bring a ring to, as they start, write heartbeats and end in any
  -- order, with an unregister that takes effect or one that fails, and as Consul loses the ring,
  -- the ring has no token twice, its entries and tokens are those of ingesters that have started
  -- and were not taken out, and one of these that has an entry has all its tokens; no two of
  -- these share a token. It is taken that an ingester's own tokens are all different, that none
  -- is one of another of these whose entry was lost, which generateTokens does not ensure, that
  -- none starts under the ID of another of these, and that a CAS that fails changes nothing.
  pub Reach-Holds : {s : State} → Reach sorter numbers s → Holds s
  Reach-Holds nothing = empty-IsHeld (λ id. none) (λ i j m n k p q a b. cc p) (λ id m q. cc q)
  Reach-Holds (starts {s = s} {s1 = s1} h r randoms now tokens absent begun keeps strict lost) =
      start_loop-Holds sorter numbers s s1 r randoms now tokens (Reach-Holds h) absent begun keeps
        strict lost
  Reach-Holds (ticks {s = s} h id m now r e) =
      subst Holds e (tick-Holds sorter numbers s id m now (live_member s id m r) (Reach-Holds h))
  Reach-Holds (ends {s = s} h taken id m r e) =
      subst Holds e
        (end_loop-Holds sorter numbers taken s id m (live_member s id m r) (Reach-Holds h))
  Reach-Holds (loses {s = s} h e) =
      let held = Reach-Holds h in subst Holds e (empty-IsHeld s.members held.apart held.own)

  -- A tick of an ingester, if it runs
  abbrev one_tick : ℕ → State → Option Running → State
  one_tick now s none = s
  one_tick now s (some m) = tick sorter numbers m now s

  -- A tick of each of some ingesters, those that run
  abbrev pub tick_each : List Text → ℕ → State → State
  tick_each [] now s = s
  tick_each (id ∷ ids) now s = tick_each ids now (one_tick now s (live s id))

  abbrev pub HasEntry : State → Text → Type 0
  HasEntry s id = (e : IngesterDesc) × (lookup id (or_new s.ring).ingesters ≡ some e)

  tick_entry :
      (m : Running) (now : ℕ) (s : State) (j : Text)
      → lookup j (or_new (tick sorter numbers m now s).ring).ingesters ≡ (
          if text_ord.same m.registration.id j
          then some (
              refreshed now m.registration.hostname
                (lookup m.registration.id (or_new s.ring).ingesters))
          else lookup j (or_new s.ring).ingesters)
  unfolding tick
  tick_entry m now s j =
      let (d, e, l, t) = heartbeat_lem sorter numbers m.registration now m.tokens s.ring j in rw e l

  tick-HasEntry :
      (m : Running) (now : ℕ) (s : State) (j : Text)
      → (m.registration.id ≡ j) ⊎ HasEntry s j
      → HasEntry (tick sorter numbers m now s) j
  tick-HasEntry m now s j h = elim (Bool-cases (text_ord.same m.registration.id j)) [
    | inl same ↦ (
      refreshed now m.registration.hostname (lookup m.registration.id (or_new s.ring).ingesters),
      tick_entry m now s j ∙ rw same refl,
    )
    | inr other ↦ elim h [
      | inl same ↦ cc ((text_ord.same_iff m.registration.id j).1 same, other)
      | inr (e, p) ↦ (e, tick_entry m now s j ∙ rw other p)
    ]
  ]

  same_members :
      (m : Running) (now : ℕ) (s : State)
      → ((tick sorter numbers m now s).members ≡ s.members)
        × ((tick sorter numbers m now s).gone ≡ s.gone)
  unfolding tick
  same_members m now s = (refl, refl)

  -- What ticks of some ingesters leave
  record Ticked (ids : List Text) (s s1 : State) : Type 0 where
    reached : Reach sorter numbers s1
    members : s1.members ≡ s.members
    gone : s1.gone ≡ s.gone
    gives :
        (j : Text) (m : Running)
        → s.members j ≡ some m
        → (Member j ids × (s.gone j ≡ false)) ⊎ HasEntry s j
        → HasEntry s1 j
    given : (j : Text) → HasEntry s1 j → (s.gone j ≡ false) ⊎ HasEntry s j

  live_of :
      (s : State) (j : Text) (m : Running)
      → s.members j ≡ some m
      → s.gone j ≡ false
      → live s j ≡ some m
  live_of s j m r g = rw g r

  not_gone : (s : State) (j : Text) (m : Running) → live s j ≡ some m → s.gone j ≡ false
  not_gone s j m e = elim (Bool-cases (s.gone j)) [ inl g ↦ cc (rw g at e) | inr g ↦ g ]

  tick_each-Ticked :
      (ids : List Text) (now : ℕ) (s : State)
      → Reach sorter numbers s
      → Ticked ids s (tick_each ids now s)
  tick_each-Ticked [] now s h = record {
    reached = h;
    members = refl;
    gone = refl;
    gives = λ j m r o. elim o [ inl n ↦ elim n.0 [ ] | inr e ↦ e ];
    given = λ j e. inr e;
  }
  tick_each-Ticked (id ∷ ids) now s h = elim (Option-cases (live s id)) [
    | inl absent ↦
        let rest = tick_each-Ticked ids now s h in
        subst (λ o. Ticked (id ∷ ids) s (tick_each ids now (one_tick now s o))) (sym absent)
          (record {
            reached = rest.reached;
            members = rest.members;
            gone = rest.gone;
            gives = λ j m r o. elim o [
              | inr e ↦ rest.gives j m r (inr e)
              | inl (n, g) ↦ elim n [
                | inl is_id ↦ cc (ap (live s) is_id, absent, live_of s j m r g)
                | inr later ↦ rest.gives j m r (inl (later, g))
              ]
            ];
            given = rest.given;
          })
    | inr (n, runs) ↦
        let s' = tick sorter numbers n now s in
        let rest = tick_each-Ticked ids now s' (ticks h id n now runs refl) in
        let own = ((Reach-Holds h).own id n (live_member s id n runs)).0 in
        let (same, still) = same_members n now s in
        subst (λ o. Ticked (id ∷ ids) s (tick_each ids now (one_tick now s o))) (sym runs)
          (record {
            reached = rest.reached;
            members = rest.members ∙ same;
            gone = rest.gone ∙ still;
            gives = λ j m r o.
                let r' = ap (λ f. f j) same ∙ r in
                elim o [
                  | inr e ↦ rest.gives j m r' (inr (tick-HasEntry n now s j (inr e)))
                  | inl (k, g) ↦ elim k [
                    | inl is_id ↦
                        rest.gives j m r' (inr (tick-HasEntry n now s j (inl (own ∙ sym is_id))))
                    | inr later ↦ rest.gives j m r' (inl (later, ap (λ f. f j) still ∙ g))
                  ]
                ];
            given = λ j e. elim (rest.given j e) [
              | inl g ↦ inl (ap (λ f. f j) (sym still) ∙ g)
              | inr (e', p) ↦ elim (Bool-cases (text_ord.same n.registration.id j)) [
                | inl is_n ↦
                    let here = sym own ∙ (text_ord.same_iff n.registration.id j).0 is_n in
                    inl (ap s.gone (sym here) ∙ not_gone s id n runs)
                | inr other ↦ inr (e', rw other at (sym (tick_entry n now s j) ∙ p))
              ]
            ];
          })
  ]

  -- In every state that ingesters bring a ring to, with ends whose unregister takes effect or
  -- fails, even if Consul has lost the ring: after one heartbeat of each ingester that runs, in
  -- any order, the ring gives a token to an ingester just if that one has started with the token,
  -- was not taken out, and runs, or its entry was still there. It is taken that an ingester's own
  -- tokens are all different, that none is one of another of these whose entry was lost, which
  -- generateTokens does not ensure, that none starts under the ID of another of these, and that a
  -- CAS that fails changes nothing.
  pub heartbeats_restore :
      {s : State}
      → Reach sorter numbers s
      → (ids : List Text) (now : ℕ)
      → ((id : Text) (m : Running) → live s id ≡ some m → Member id ids)
      → (id : Text) (k : ℕ)
      → let tokens = (or_new (tick_each ids now s).ring).tokens in
        (find token_of k tokens ≡ some (owned_by id k)) ↔ (
          (m : Running) × (s.members id ≡ some m)
          × (is_in k m.tokens ≡ true)
          × ((s.gone id ≡ false) ⊎ HasEntry s id))
  heartbeats_restore {s} h ids now all_tick id k =
      let ticked = tick_each-Ticked ids now s h in
      let held = Reach-Holds ticked.reached in
      (
        (λ q.
            let (m, r, i, e) = held.sound k (owned_by id k) q in
            (m, ap (λ f. f id) (sym ticked.members) ∙ r, i, ticked.given id e)),
        λ (m, r, i, o).
            let (e, p) = ticked.gives id m r (elim o [
              | inl g ↦ inl (all_tick id m (live_of s id m r g), g)
              | inr before ↦ inr before
            ]) in
            held.complete id m e k (ap (λ f. f id) ticked.members ∙ r) p i,
      )
