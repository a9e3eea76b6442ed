-- ===== src/Distributor/Cached.antt =====
-- distributor.go: the clients that a distributor keeps, over any calls.
use frankenstein.Prelude.{
  ◌≡◌, refl, sym, ap, ◌∙◌, inl, inr, List, [], ◌∷◌, map, none, some, Bool-cases, Option-cases,
  some-inj,
}
use frankenstein.Prelude.Int.{ℤ}
use frankenstein.Prelude.Order.{Text, text_ord}
use frankenstein.Prelude.Dict.{lookup, lookup-insert}
use frankenstein.Prelude.Result.{ok, Result-cases, ◌>>=◌}
use frankenstein.User.{Context}
use frankenstein.Model.{LabelMatcher, Sample}
use frankenstein.Ring.Model.{IngesterDesc, Desc}
use frankenstein.Ring.Lookup.{get_all}
use frankenstein.Chunk.Store.Objects.{gather_errors}
use frankenstein.Distributor.Plain.{
  Call, append_call, query_call, label_values_call, ring_read, Answer, appended, queried,
  label_values_answer, no_answer, do_calls, made_for, plain_send_all, plain_append, plain_query,
  plain_values, plain_calls,
}
use frankenstein.Distributor.{
  Clients, Distributor, new_distributor, get_client_for, send_samples, send_all, append, query,
  query_ingester, samples_by_ingester, collect_values, label_values_for_label_name, add_values,
}

module _ {C W : Type 0} (api : Clients C W) where
  -- Every client that is kept is the one that the factory makes for its host name.
  abbrev pub IsMade : Distributor C → Type 0
  IsMade d =
      (hostname : Text) (c : C) → lookup hostname d.clients ≡ some c → api.factory hostname ≡ ok c

  -- What a call leaves of a distributor.
  abbrev Kept : Distributor C → Distributor C → Type 0
  Kept d d1 = (d1.ring ≡ d.ring) × IsMade d1

  get_client_for-Kept :
      (d : Distributor C) (hostname : Text)
      → IsMade d
      → ((get_client_for api d hostname).0 ≡ api.factory hostname)
        × Kept d (get_client_for api d hostname).1
  unfolding get_client_for
  get_client_for-Kept d hostname made = elim (Option-cases (lookup hostname d.clients)) [
    | inr (c, e) ↦ rw (e, get_client_for) (sym (made hostname c e), (refl, made))
    | inl e ↦ elim (Result-cases (api.factory hostname)) [
      | inl (f, q) ↦ rw (e, q, get_client_for) (refl, (refl, made))
      | inr (c, q) ↦
          rw (e, q, get_client_for)
            (
              refl,
              (
                refl,
                λ h c' l. elim (Bool-cases (text_ord.same hostname h)) [
                  | inl same ↦
                      ap api.factory (sym ((text_ord.same_iff hostname h).0 same))
                      ∙ q
                      ∙ ap ok (
                          some-inj c c'
                            (rw same at (sym (lookup-insert hostname h c d.clients) ∙ l)))
                  | inr other ↦
                      made h c' (rw other at (sym (lookup-insert hostname h c d.clients) ∙ l))
                ],
              ),
            )
    ]
  ]

  -- A step of the distributor does what it does without clients, and keeps what its clients are.
  abbrev Does : {A : Type 0} → Distributor C → A × Distributor C × W → A × W → Type 0
  Does d (a, d1, w1) (b, w2) = (a ≡ b) × (w1 ≡ w2) × Kept d d1

  send_samples-Does :
      (user_id hostname : Text) (samples : List Sample) (d : Distributor C) (w : W)
      → IsMade d
      → Does d
          (send_samples api user_id hostname samples d w)
          (made_for api hostname (λ c. api.append c user_id samples w) w)
  unfolding send_samples
  send_samples-Does user_id hostname samples d w made =
      let (same, kept) = get_client_for-Kept d hostname made in
      elim (Result-cases (api.factory hostname)) [
        | inl (e, q) ↦ rw (same ∙ q, q, send_samples, made_for) (refl, refl, kept)
        | inr (c, q) ↦ rw (same ∙ q, q, send_samples, made_for) (refl, refl, kept)
      ]

  send_all-Does :
      (user_id : Text) (groups : List (Text × List Sample)) (d : Distributor C) (w : W)
      → IsMade d
      → Does d (send_all api user_id groups d w) (plain_send_all api user_id groups w)
  unfolding send_all
  send_all-Does user_id [] d w made = (refl, refl, (refl, made))
  send_all-Does user_id ((hostname, samples) ∷ groups) d w made =
      let (e, w1, kept) = send_samples-Does user_id hostname samples d w made in
      let (es, w2, later) =
        send_all-Does user_id groups (send_samples api user_id hostname samples d w).1
          (send_samples api user_id hostname samples d w).2 kept.1 in
      let after = ap (plain_send_all api user_id groups) w1 in
      (cc (e, es ∙ ap (λ r. r.0) after), w2 ∙ ap (λ r. r.1) after, (later.0 ∙ kept.0, later.1))

  append-Does :
      (arrange : List (Text × List Sample) → List (Text × List Sample)) (ctx : Context)
      (samples : List Sample) (d : Distributor C) (w : W)
      → IsMade d
      → Does d (append api arrange ctx samples d w) (plain_append api arrange ctx samples d.ring w)
  unfolding append
  append-Does arrange none samples d w made = (refl, refl, (refl, made))
  append-Does arrange (some user_id) samples d w made =
      elim (Result-cases (samples_by_ingester d.ring user_id samples [])) [
        | inl (e, q) ↦ rw (q, append, plain_append) (refl, refl, (refl, made))
        | inr (groups, q) ↦
            let (es, w1, kept) = send_all-Does user_id (arrange groups) d w made in
            rw (q, append, plain_append) (ap (λ es. gather_errors es none) es, w1, kept)
      ]

  query-Does :
      (ctx : Context) (from to : ℤ) (matchers : List LabelMatcher) (d : Distributor C) (w : W)
      → IsMade d
      → ((query api ctx from to matchers d w).0 ≡ plain_query api ctx from to matchers d.ring w)
        × Kept d (query api ctx from to matchers d w).1
  unfolding query
  query-Does ctx from to matchers d w made =
      elim (Result-cases (query_ingester ctx matchers d.ring)) [
        | inl (e, q) ↦ rw (q, query, plain_query) (refl, (refl, made))
        | inr (asked, q) ↦
            let (same, kept) = get_client_for-Kept d asked.1.hostname made in
            rw (q, query, plain_query)
              (ap (λ r. r >>= λ c. api.query c asked.0 from to matchers w) same, kept)
      ]

  collect_values-Does :
      (user_id label_name : Text) (ingesters : List IngesterDesc) (set : List (Text × Unit {0}))
      (d : Distributor C) (w : W)
      → IsMade d
      → ((collect_values api user_id label_name ingesters set d w).0
          ≡ plain_values api user_id label_name ingesters set w)
        × Kept d (collect_values api user_id label_name ingesters set d w).1
  unfolding collect_values
  collect_values-Does user_id label_name [] set d w made = (refl, (refl, made))
  collect_values-Does user_id label_name (i ∷ ingesters) set d w made =
      let (same, kept) = get_client_for-Kept d i.hostname made in
      let as_made = ap (λ r. r >>= λ c. api.label_values c user_id label_name w) same in
      elim (Result-cases
        (api.factory i.hostname >>= λ c. api.label_values c user_id label_name w)) [
          | inl (e, q) ↦ rw (as_made ∙ q, q, collect_values, plain_values) (refl, kept)
          | inr (vals, q) ↦
              let (later, kept') =
                collect_values-Does user_id label_name ingesters (add_values api set vals)
                  (get_client_for api d i.hostname).1 w kept.1 in
              rw (as_made ∙ q, q, collect_values, plain_values) (later, (kept'.0 ∙ kept.0, kept'.1))
        ]

  label_values-Does :
      (user_id label_name : Text) (d : Distributor C) (w : W)
      → IsMade d
      → ((label_values_for_label_name api user_id label_name d w).0 ≡ (
          plain_values api user_id label_name (get_all d.ring) [] w >>= λ set.
          ok (map (λ entry. entry.0) set)))
        × Kept d (label_values_for_label_name api user_id label_name d w).1
  unfolding label_values_for_label_name
  label_values-Does user_id label_name d w made =
      let (same, kept) = collect_values-Does user_id label_name (get_all d.ring) [] d w made in
      (ap (λ r. r >>= λ set. ok (map (λ entry. entry.0) set)) same, kept)

  abbrev and_then : Answer → List Answer × W → List Answer × W
  and_then a r = (a ∷ r.0, r.1)

  answered : (a b : Answer) (r s : List Answer × W) → a ≡ b → r ≡ s → and_then a r ≡ and_then b s
  answered a b r s e f = ap (λ c. and_then c r) e ∙ ap (and_then b) f

  -- Over any calls and any rings that it reads in between, a distributor whose clients are the
  -- factory's answers, and acts on the ingesters, just like one that makes a client for every use.
  pub do_calls-plain_calls :
      (calls : List Call) (d : Distributor C) (w : W)
      → IsMade d
      → do_calls api calls d w ≡ plain_calls api calls d.ring w
  do_calls-plain_calls [] d w made = refl
  do_calls-plain_calls (append_call arrange ctx samples ∷ calls) d w made =
      let (e, w1, (ring, made')) = append-Does arrange ctx samples d w made in
      let left = append api arrange ctx samples d w in
      answered _ _ _ _ (ap appended e) (
        do_calls-plain_calls calls left.1 left.2 made'
        ∙ ap (λ r. plain_calls api calls r left.2) ring
        ∙ ap (plain_calls api calls d.ring) w1)
  do_calls-plain_calls (query_call ctx from to matchers ∷ calls) d w made =
      let (e, (ring, made')) = query-Does ctx from to matchers d w made in
      answered _ _ _ _ (ap queried e) (
        do_calls-plain_calls calls (query api ctx from to matchers d w).1 w made'
        ∙ ap (λ r. plain_calls api calls r w) ring)
  do_calls-plain_calls (label_values_call user_id label_name ∷ calls) d w made =
      let (e, (ring, made')) = label_values-Does user_id label_name d w made in
      answered _ _ _ _ (ap label_values_answer e) (
        do_calls-plain_calls calls (label_values_for_label_name api user_id label_name d w).1 w
          made'
        ∙ ap (λ r. plain_calls api calls r w) ring)
  do_calls-plain_calls (ring_read ring ∷ calls) d w made =
      ap (λ r. (no_answer ∷ r.0, r.1))
        (do_calls-plain_calls calls (record d { ring = ring }) w made)

  pub new_distributor-IsMade : (ring : Desc) → IsMade (new_distributor ring)
  unfolding lookup
  new_distributor-IsMade ring h c e = cc
