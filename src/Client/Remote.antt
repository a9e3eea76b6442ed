-- ===== src/Client/Remote.antt =====
-- A client and the handlers of server.go, put together.
use frankenstein.Prelude.{
  ℕ, Bool, true, false, if◌then◌else◌, arith, List, [], ◌∷◌, map, Option, none, some, ◌≡◌, refl, ap,
  ◌∙◌, All, true, Bool, arith,
}
use frankenstein.Prelude.Int.{ℤ}
use frankenstein.Prelude.Order.{Text, codes}
use frankenstein.Prelude.Result.{Result, ok, err, Error, ◌>>=◌, bad_status}
use frankenstein.User.{Context}
use frankenstein.Model.{LabelMatcher, Sample, SampleStream}
use frankenstein.Wire.{
  TimeSeries, to_request, from_request, write_samples, to_named, from_named, to_wire_matchers,
  from_wire_matchers, NamedSeries,
}
use frankenstein.Wire.RoundTrip.{
  HasMap, from_request-to_request, IsMade, from_wire_matchers-to_wire_matchers,
}
use frankenstein.Server.{
  Request, Reply, Coding, Libs, ReadRequest, appender_handler, append_parsed, parse_request,
  parse_body, query_handler, answer_query, write_response,
}
use frankenstein.Client.{Transport, append, query, do_request, read_reply, to_error}

-- What protobuf promises of a message: it is encoded, and its encoding is read back.
abbrev pub IsCoded : {M : Type 0} → Coding M → M → Type 0
IsCoded coding m =
    (bytes : List ℕ) × (coding.marshal m ≡ ok bytes) × (coding.unmarshal bytes ≡ ok m)

-- What snappy promises.
abbrev pub Unpacks : Libs → Type 0
Unpacks libs = (bytes : List ℕ) → libs.decompress (libs.compress bytes) ≡ ok bytes

-- A connection to a handler that changes a state, and to one that does not.
abbrev pub served : {W : Type 0} → (Request → W → Reply × W) → Transport W
served handler endpoint r w = let (reply, w1) = handler r w in (ok reply, w1)

abbrev pub answered : {W : Type 0} → (Request → Reply) → Transport W
answered handler endpoint r w = (ok (handler r), w)

-- What a client sees of an error of the other end: the status.
abbrev pub as_remote : {W : Type 0} → Option Error × W → Option Error × W
as_remote (none, w) = (none, w)
as_remote (some e, w) = (some (bad_status 500), w)

module _ (libs : Libs) {W : Type 0} where
  -- A request of a user whose message is encoded
  do_request-encoded :
      (http : Transport W) {M R : Type 0} (user_id : Text) (endpoint : Text) (req_coding : Coding M)
      (resp_coding : Coding R) (req : M) (compressed : Bool) (w : W) (bytes : List ℕ)
      → req_coding.marshal req ≡ ok bytes
      → let body = if compressed then libs.compress bytes else bytes in
        let answer = http endpoint (record { user_id = user_id; body = ok body }) w in
        do_request libs http (some user_id) endpoint req_coding resp_coding req compressed w
        ≡ (read_reply libs http resp_coding compressed answer.0, answer.1)
  unfolding do_request
  do_request-encoded http user_id endpoint req_coding resp_coding req compressed w bytes e =
      rw e refl

  appender_handler-read :
      (local : Context → List Sample → W → Option Error × W) (c : ℕ) (cs : Text)
      (packed bytes : List ℕ) (req : List TimeSeries) (w : W)
      → libs.decompress packed ≡ ok bytes
      → libs.write_request.unmarshal bytes ≡ ok req
      → appender_handler libs local (record { user_id = c ∷ cs; body = ok packed }) w
        ≡ append_parsed libs local (some (c ∷ cs)) req w
  unfolding appender_handler
  appender_handler-read local c cs packed bytes req w d e = ground (arith, d, e)

module _ (libs : Libs) (unpacks : Unpacks libs) (responses : IsCoded libs.write_response tt)
    {W : Type 0} (local : Context → List Sample → W → Option Error × W) where
  abbrev via : Transport W
  via = served (appender_handler libs local)

  read-append_parsed :
      (ctx : Context) (req : List TimeSeries) (w : W)
      → let answer = append_parsed libs local ctx req w in
        (to_error (read_reply libs via libs.write_response true (ok answer.0)), answer.1)
        ≡ as_remote (local ctx (from_request req) w)
  unfolding append_parsed read_reply write_samples
  read-append_parsed ctx req w =
      let (bytes, p, q) = responses in
      go bytes p q (local ctx (from_request req) w).0 (local ctx (from_request req) w).1 refl
    where
      go :
          (bytes : List ℕ)
          → libs.write_response.marshal tt ≡ ok bytes
          → libs.write_response.unmarshal bytes ≡ ok tt
          → (o : Option Error) (w1 : W) → local ctx (from_request req) w ≡ (o, w1)
          → let answer = append_parsed libs local ctx req w in
            (to_error (read_reply libs via libs.write_response true (ok answer.0)), answer.1)
            ≡ as_remote (local ctx (from_request req) w)
      go bytes p q none w1 e = ground (arith, e, p, q, unpacks bytes)
      go bytes p q (some x) w1 e = ground (arith, e, p)

  -- Where the messages can be encoded and read back, and what is compressed can be decompressed, the
  -- call of a client for a user, with samples whose metrics name no label twice, does on the other end what the same call does there, with the same user and samples,
  -- and fails, with the status 500, exactly when that call fails.
  pub remote_append :
      (c : ℕ) (cs : Text) (samples : List Sample) (w : W)
      → IsCoded libs.write_request (to_request samples)
      → All HasMap samples
      → append libs via (some (c ∷ cs)) samples w ≡ as_remote (local (some (c ∷ cs)) samples w)
  unfolding append
  remote_append c cs samples w requests h =
      let (bytes, p, q) = requests in
      ap (λ (r : Result (Unit {0}) × W). (to_error r.0, r.1))
        (do_request-encoded libs via (c ∷ cs) (codes "/push") libs.write_request libs.write_response
          (to_request samples) true w bytes p)
      ∙ ap
          (λ (a : Reply × W).
            (to_error (read_reply libs via libs.write_response true (ok a.0)), a.1))
          (appender_handler-read libs local c cs (libs.compress bytes) bytes (to_request samples) w
            (unpacks bytes) q)
      ∙ read-append_parsed (some (c ∷ cs)) (to_request samples) w
      ∙ ap (λ xs. as_remote (local (some (c ∷ cs)) xs w)) (from_request-to_request samples h)

-- The message of a question
abbrev pub asked_for : ℤ → ℤ → List LabelMatcher → ReadRequest
asked_for from to matchers = record {
  start_ms = from;
  end_ms = to;
  matchers = to_wire_matchers matchers;
}

-- What a client sees of an answer of the other end.
abbrev pub as_answer : Result (List SampleStream) → Result (List SampleStream)
as_answer (ok matrix) = ok (map (λ ss. from_named (to_named ss)) matrix)
as_answer (err e) = err (bad_status 500)

map_twice :
    (ss : List SampleStream)
    → map from_named (map to_named ss) ≡ map (λ s. from_named (to_named s)) ss
map_twice [] = refl
map_twice (s ∷ ss) = ap (◌∷◌ (from_named (to_named s))) (map_twice ss)

module _ (libs : Libs)
    (local : Context → ℤ → ℤ → List LabelMatcher → Result (List SampleStream)) where
  query_handler-read :
      (c : ℕ) (cs : Text) (bytes : List ℕ) (req : ReadRequest) (matchers : List LabelMatcher)
      → libs.read_request.unmarshal bytes ≡ ok req
      → from_wire_matchers libs.new_matcher req.matchers ≡ ok matchers
      → query_handler libs local (record { user_id = c ∷ cs; body = ok bytes })
        ≡ answer_query libs (local (some (c ∷ cs)) req.start_ms req.end_ms matchers)
  unfolding query_handler parse_request parse_body
  query_handler-read c cs bytes req matchers p q = ground (arith, p, q)

module _ (libs : Libs) {W : Type 0}
    (local : Context → ℤ → ℤ → List LabelMatcher → Result (List SampleStream)) where
  read-answer_query :
      (http : Transport W) (r : Result (List SampleStream))
      → ((matrix : List SampleStream)
          → r ≡ ok matrix
          → IsCoded libs.read_response (map to_named matrix))
      → (read_reply libs http libs.read_response false (ok (answer_query libs r))
          >>= (λ series. ok (map from_named series)))
        ≡ as_answer r
  unfolding answer_query write_response read_reply
  read-answer_query http (err e) responses = ground arith
  read-answer_query http (ok matrix) responses =
      let (bytes, p, q) = responses matrix refl in ground (arith, p, q, map_twice matrix)

  -- Where the messages can be encoded and read back, the question of a client for a user, with matchers
  -- that the library makes from their parts, gets the streams that the same question has on the other end, each one
  -- written and read back, or fails with the status 500 exactly when that question fails.
  pub remote_query :
      (c : ℕ) (cs : Text) (from to : ℤ) (matchers : List LabelMatcher) (w : W)
      → IsCoded libs.read_request (asked_for from to matchers)
      → ((matrix : List SampleStream)
          → local (some (c ∷ cs)) from to matchers ≡ ok matrix
          → IsCoded libs.read_response (map to_named matrix))
      → All (IsMade libs.new_matcher) matchers
      → query libs (answered (query_handler libs local)) (some (c ∷ cs)) from to matchers w
        ≡ (as_answer (local (some (c ∷ cs)) from to matchers), w)
  unfolding query
  remote_query c cs from to matchers w requests responses h =
      let http : Transport W = answered (query_handler libs local) in
      let req = asked_for from to matchers in
      let (bytes, p, q) = requests in
      ap
        (λ (r : Result (List NamedSeries) × W).
          (r.0 >>= (λ series. ok (map from_named series)), r.1))
        (do_request-encoded libs http (c ∷ cs) (codes "/query") libs.read_request libs.read_response
          req false w bytes p)
      ∙ ap
          (λ reply. (
            read_reply libs http libs.read_response false (ok reply)
                >>= (λ series. ok (map from_named series)),
            w,
          ))
          (query_handler-read libs local c cs bytes req matchers q
            (from_wire_matchers-to_wire_matchers libs.new_matcher matchers h))
      ∙ ap (λ r. (r, w)) (read-answer_query http (local (some (c ∷ cs)) from to matchers) responses)
