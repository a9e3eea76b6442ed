-- ===== src/Ring/Lifecycle/Shared.antt =====
-- ring/ingester_lifecycle.go: the ring that many ingesters share holds what its members have.
use mathlib.Core.Path.{subst}
use frankenstein.Prelude.{
  ℕ, ◌≡◌, refl, sym, ap, ◌∙◌, Bool, true, false, List, none, some, Option, if◌then◌else◌, map, inl,
  inr, Bool-cases, Option-cases, some-inj, ◌⊎◌,
}
use frankenstein.Prelude.Order.{Text, text_ord, nat_ord}
use frankenstein.Prelude.Dict.{lookup, insert, delete, lookup-insert}
use frankenstein.Prelude.Sort.{Sorter, IsStrict}
use frankenstein.Ring.Model.{
  Desc, IngesterDesc, token_of, new_desc, add_ingester, remove_tokens, remove_ingester,
}
use frankenstein.Ring.Model.Tokens.{number, is_in}
use frankenstein.Ring.Model.Leave.{AreFresh, fresh-count}
use frankenstein.Ring.Lifecycle.{
  Registration, or_new, generate_tokens, pick_tokens, heartbeat, unregister,
}
use frankenstein.Ring.Lifecycle.Picked.{generate_tokens-AreFresh}
use frankenstein.Ring.Lifecycle.Loop.{Running, State, set_running, start_loop, tick, end_loop}
use frankenstein.Ring.Lifecycle.Held.{IsHeld, AreApart, add_ingester-IsHeld, AreFresh-no_entry}
use frankenstein.Ring.Lifecycle.Left.{remove_ingester-IsHeld}

abbrev pub Holds : State → Type 0
Holds s = IsHeld (or_new s.ring) s.members

-- A ring without anything
pub empty-IsHeld :
    (running : Text → Option Running)
    → AreApart running
    → ((id : Text) (m : Running)
        → running id ≡ some m
        → (m.registration.id ≡ id) × IsStrict number m.tokens)
    → IsHeld (or_new none) running
unfolding lookup
empty-IsHeld running apart own = record {
  strict = tt;
  own = own;
  apart = apart;
  sound = λ k t q. cc q;
  complete = λ id m e k q p i. cc p;
  entries = λ id e p. cc p;
}

-- A new time for an entry
refreshed-IsHeld :
    (d : Desc) (running : Text → Option Running) (id : Text) (desc : IngesterDesc) (now : ℕ)
    → IsHeld d running
    → lookup id d.ingesters ≡ some desc
    → IsHeld
        (record d { ingesters = insert id (record desc { timestamp = now }) d.ingesters })
        running
refreshed-IsHeld d running id desc now held p = record {
  strict = held.strict;
  own = held.own;
  apart = held.apart;
  sound = λ k t q. let (n, r, i, (e, l)) = held.sound k t q in (n, r, i, there t.ingester e l);
  complete = λ j n e k q l i. let (e', l', h) = before j e l in held.complete j n e' k q l' i;
  entries = λ j e l.
      let (e', l', h) = before j e l in let (n, r, h') = held.entries j e' l' in (n, r, h ∙ h');
}
  where
    entry :
        (j : Text)
        → lookup j (insert id (record desc { timestamp = now }) d.ingesters) ≡ (
            if text_ord.same id j
            then some (record desc { timestamp = now })
            else lookup j d.ingesters)
    entry j = lookup-insert id j (record desc { timestamp = now }) d.ingesters

    there :
        (j : Text) (e : IngesterDesc)
        → lookup j d.ingesters ≡ some e
        → (e' : IngesterDesc) × (lookup j (insert id (record desc { timestamp = now }) d.ingesters)
            ≡ some e')
    there j e l = elim (Bool-cases (text_ord.same id j)) [
      | inl s ↦ (record desc { timestamp = now }, entry j ∙ rw s refl)
      | inr s ↦ (e, entry j ∙ rw s l)
    ]

    before :
        (j : Text) (e : IngesterDesc)
        → lookup j (insert id (record desc { timestamp = now }) d.ingesters) ≡ some e
        → (e' : IngesterDesc) × (lookup j d.ingesters ≡ some e') × (e.hostname ≡ e'.hostname)
    before j e l = elim (Bool-cases (text_ord.same id j)) [
      | inl s ↦ (
        desc,
        ap (λ i. lookup i d.ingesters) (sym ((text_ord.same_iff id j).0 s)) ∙ p,
        ap (λ (x : IngesterDesc). x.hostname)
            (some-inj e (record desc { timestamp = now }) (sym l ∙ entry j ∙ rw s refl)),
      )
      | inr s ↦ (e, rw s at (sym (entry j) ∙ l), refl)
    ]

module _ (sorter : Sorter token_of) (numbers : Sorter number) where
  pub tick-Holds :
      (s : State) (id : Text) (m : Running) (now : ℕ)
      → s.members id ≡ some m
      → Holds s
      → Holds (tick sorter numbers m now s)
  unfolding tick heartbeat
  tick-Holds s id m now r held =
      let ring = or_new s.ring in
      let rid = (held.own id m r).0 in
      let runs = ap s.members rid ∙ r in
      elim (Option-cases (lookup m.registration.id ring.ingesters)) [
        | inl e ↦
            rw (e, heartbeat)
              (add_ingester-IsHeld sorter now ring s.members held m.registration.id m refl e
                (held.own id m r).1 (AreFresh-no_entry held m.registration.id m runs e) s.members
                runs (λ j h. refl) held.apart)
        | inr (desc, e) ↦
            rw (e, heartbeat) (refreshed-IsHeld ring s.members m.registration.id desc now held e)
      ]

  -- What the start of a loop leaves, where the random source suffices.
  start_loop-started :
      (r : Registration) (randoms : List ℕ) (now : ℕ) (s s1 : State)
      → start_loop sorter numbers r randoms now s ≡ some s1
      → (tokens : List ℕ) × (generate_tokens numbers r.num_tokens
            (map token_of (or_new s.ring).tokens)
            randoms
          ≡ some tokens)
        × (s1 ≡ record {
          ring = some (add_ingester sorter now (or_new s.ring) r.id r.hostname tokens);
          members =
              set_running r.id (some (record { registration = r; tokens = tokens })) s.members;
          gone = s.gone;
        })
  unfolding start_loop pick_tokens
  start_loop-started r randoms now s s1 h =
      elim (Option-cases
        (generate_tokens numbers r.num_tokens (map token_of (or_new s.ring).tokens) randoms)) [
          | inl q ↦ cc (rw (q, start_loop, pick_tokens) at h)
          | inr (tokens, q) ↦
              (tokens, q, sym (some-inj _ s1 (rw (q, start_loop, pick_tokens) at h)))
        ]

  module _ (s : State) (held : Holds s) (r : Registration) (now : ℕ) (tokens : List ℕ)
      (absent : s.members r.id ≡ none) (fresh : AreFresh (or_new s.ring).tokens tokens)
      (strict : IsStrict number tokens)
      (lost : (id : Text) (m : Running) (k : ℕ)
        → s.members id ≡ some m
        → lookup id (or_new s.ring).ingesters ≡ none
        → is_in k m.tokens ≡ true
        → is_in k tokens ≡ false) where
    abbrev starting : Running
    starting = record { registration = r; tokens = tokens }

    abbrev now_running : Text → Option Running
    now_running = set_running r.id (some starting) s.members

    -- None of its tokens is one of another ingester.
    starting-alone :
        (j : Text) (n : Running) (k : ℕ)
        → s.members j ≡ some n
        → is_in k n.tokens ≡ true
        → is_in k tokens ≡ false
    starting-alone j n k q i = elim (Option-cases (lookup j (or_new s.ring).ingesters)) [
      | inl p ↦ lost j n k q p i
      | inr (e, p) ↦ elim (Bool-cases (is_in k tokens)) [
        | inr no_clash ↦ no_clash
        | inl clash ↦ cc (
          (fresh-count k (or_new s.ring).tokens tokens fresh clash).1,
          held.complete j n e k q p i,
        )
      ]
    ]

    which :
        (j : Text) (n : Running)
        → now_running j ≡ some n
        → ((r.id ≡ j) × (starting ≡ n)) ⊎ (s.members j ≡ some n)
    which j n q = elim (Bool-cases (text_ord.same r.id j)) [
      | inl e ↦ inl ((text_ord.same_iff r.id j).0 e, some-inj starting n (rw e at q))
      | inr e ↦ inr (rw e at q)
    ]

    -- A token of the one that starts is not one of another.
    not_both :
        (m n : Running) (j : Text) (k : ℕ)
        → starting ≡ m
        → s.members j ≡ some n
        → is_in k m.tokens ≡ true
        → is_in k n.tokens ≡ true
        → ⊥
    not_both m n j k e q a b = cc (ap (λ (x : Running). x.tokens) e, a, starting-alone j n k q b)

    now_running-AreApart : AreApart now_running
    now_running-AreApart i j m n k p q a b = elim (which i m p) [
      | inl (same, is_m) ↦ elim (which j n q) [
        | inl (same', is_n) ↦ sym same ∙ same'
        | inr q' ↦ absurd (not_both m n j k is_m q' a b)
      ]
      | inr p' ↦ elim (which j n q) [
        | inl (same', is_n) ↦ absurd (not_both n m i k is_n p' b a)
        | inr q' ↦ held.apart i j m n k p' q' a b
      ]
    ]

    no_entry : lookup r.id (or_new s.ring).ingesters ≡ none
    no_entry = elim (Option-cases (lookup r.id (or_new s.ring).ingesters)) [
      | inl p ↦ p
      | inr (e, p) ↦ cc (absent, (held.entries r.id e p).1)
    ]

    started-IsHeld :
        IsHeld (add_ingester sorter now (or_new s.ring) r.id r.hostname tokens) now_running
    started-IsHeld =
        add_ingester-IsHeld sorter now (or_new s.ring) s.members held r.id starting refl no_entry
          strict fresh now_running (rw ((text_ord.same_iff r.id r.id).1 refl) refl)
          (λ j h. rw h refl) now_running-AreApart

  pub start_loop-Holds :
      (s s1 : State) (r : Registration) (randoms : List ℕ) (now : ℕ) (tokens : List ℕ)
      → Holds s
      → s.members r.id ≡ none
      → start_loop sorter numbers r randoms now s ≡ some s1
      → s1.members r.id ≡ some (record { registration = r; tokens = tokens })
      → IsStrict number tokens
      → ((id : Text) (m : Running) (k : ℕ)
          → s.members id ≡ some m
          → lookup id (or_new s.ring).ingesters ≡ none
          → is_in k m.tokens ≡ true
          → is_in k tokens ≡ false)
      → Holds s1
  start_loop-Holds s s1 r randoms now tokens held absent h keeps strict lost =
      let (js, q, e) = start_loop-started r randoms now s s1 h in
      let mine =
        some-inj (record { registration = r; tokens = tokens })
          (record { registration = r; tokens = js })
          (sym keeps
            ∙ ap (λ (x : State). x.members r.id) e
            ∙ rw ((text_ord.same_iff r.id r.id).1 refl) refl) in
      let same = ap (λ (x : Running). x.tokens) mine in
      subst Holds (sym e) (
        started-IsHeld s held r now js absent
          (generate_tokens-AreFresh numbers r.num_tokens (or_new s.ring).tokens randoms js
            held.strict q)
          (subst (λ ts. IsStrict number ts) same strict)
          (λ id m k p l i. subst (λ ts. is_in k ts ≡ false) same (lost id m k p l i)))

  pub end_loop-Holds :
      (taken : Bool) (s : State) (id : Text) (m : Running)
      → s.members id ≡ some m
      → Holds s
      → Holds (end_loop sorter numbers taken m s)
  unfolding end_loop unregister remove_ingester remove_tokens delete
  end_loop-Holds false s id m r held = held
  end_loop-Holds true s id m r held =
      let runs = ap s.members (held.own id m r).0 ∙ r in
      let as_held : (o : Option Desc) → s.ring ≡ o → IsHeld (or_new o) s.members =
        λ o e. subst (λ o. IsHeld (or_new o) s.members) e held in
      elim (Option-cases s.ring) [
        | inl e ↦
            rw e
              (remove_ingester-IsHeld new_desc s.members (as_held none e) m.registration.id m runs)
        | inr (d, e) ↦
            rw e (remove_ingester-IsHeld d s.members (as_held (some d) e) m.registration.id m runs)
      ]
