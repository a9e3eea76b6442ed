-- ===== src/Client.antt =====
-- ingester_client.go: the calls of the distributor to an ingester, over HTTP.
pub mod Remote
use frankenstein.Prelude.{
  ℕ, ◌/◌, ◌==◌, Bool, true, false, if◌then◌else◌, List, map, Option, none, some,
}
use frankenstein.Prelude.Int.{ℤ}
use frankenstein.Prelude.Order.{Text, codes}
use frankenstein.Prelude.Result.{Result, ok, err, Error, ◌>>=◌, bad_status}
use frankenstein.User.{Context, get_id}
use frankenstein.Model.{LabelMatcher, Sample, SampleStream}
use frankenstein.Wire.{to_request, to_wire_matchers, from_named}
use frankenstein.Server.{Request, Reply, Coding, Libs}

-- http.NewRequest and http.Client.Do on a POST to a path: an error, or a reply. Both change the
-- world that the client talks to, of type `W`.
abbrev pub Transport : Type 0 → Type 0
Transport W = Text → Request → W → Result Reply × W

abbrev pub to_error : {R : Type 0} → Result R → Option Error
to_error (ok r) = none
to_error (err e) = some e

module _ (libs : Libs) {W : Type 0} (http : Transport W) where
  -- doRequest, from the reply on: the status, the body and the message
  unfoldable pub read_reply : {R : Type 0} → Coding R → Bool → Result Reply → Result R
  read_reply coding compressed (err e) = err e
  read_reply coding compressed (ok reply) =
      if reply.status / 100 == 2
      then ((if compressed then libs.decompress reply.body else ok reply.body) >>= coding.unmarshal)
      else err (bad_status reply.status)

  unfoldable pub do_request :
      {M R : Type 0} → Context → Text → Coding M → Coding R → M → Bool → W → Result R × W
  do_request ctx endpoint req_coding resp_coding req compressed w = elim (get_id ctx) [
    | err e ↦ (err e, w)
    | ok user_id ↦ elim (req_coding.marshal req) [
      | err e ↦ (err e, w)
      | ok bytes ↦
          let body = if compressed then libs.compress bytes else bytes in
          let (reply, w1) = http endpoint (record { user_id = user_id; body = ok body }) w in
          (read_reply resp_coding compressed reply, w1)
    ]
  ]

  unfoldable pub append : Context → List Sample → W → Option Error × W
  append ctx samples w =
      let (result, w1) =
        do_request ctx (codes "/push") libs.write_request libs.write_response (to_request samples)
          true w in
      (to_error result, w1)

  unfoldable pub query : Context → ℤ → ℤ → List LabelMatcher → W → Result (List SampleStream) × W
  query ctx from to matchers w =
      let (result, w1) =
        do_request ctx (codes "/query") libs.read_request libs.read_response
          (record { start_ms = from; end_ms = to; matchers = to_wire_matchers matchers }) false w in
      (result >>= (λ series. ok (map from_named series)), w1)

  unfoldable pub label_values_for_label_name : Context → Text → W → Result (List Text) × W
  label_values_for_label_name ctx name w =
      do_request ctx (codes "/label_values") libs.values_request libs.values_response name false w
