-- ===== src/Examples/RemoteRuns.antt =====
-- A client and a server over codings of one message each, range queries of the API, and the servers of
-- memcached.
use mathlib.Core.List.{Permᴰ}
use frankenstein.Chunk.Memcache.Loop.{
  MemcacheClient, new_memcache_client, Reach, close, stop_ticker, StaysUp, Reach-StaysUp,
}
use frankenstein.Chunk.Memcache.Servers.{update_memcache_servers-any_order}
use frankenstein.Prelude.Sort.{insertion_sorter}
use frankenstein.Chunk.Memcache.{Srv, update_memcache_servers, itself}
use frankenstein.Prelude.{
  ℕ, ◌≡◌, refl, List, [], ◌∷◌, map, none, some, if◌then◌else◌, leb, ◌*◌, Option, ap, true, false,
  inl,
}
use frankenstein.Prelude.Int.{ℤ, pos}
use frankenstein.Prelude.Order.{Text, text_ord}
use frankenstein.Prelude.Result.{Result, ok, err, Error, empty_ring, too_many_points, ◌>>=◌}
use frankenstein.User.{Context}
use frankenstein.Model.{Sample, SampleStream, LabelMatcher, MatchType}
use frankenstein.Wire.{to_request, to_named}
use frankenstein.Server.{Libs, Coding, appender_handler, query_handler}
use frankenstein.Client.{append, query}
use frankenstein.Client.Remote.{
  remote_append, remote_query, as_remote, as_answer, served, answered, asked_for,
}
use frankenstein.Api.{
  Calls, Form, query_range, crashed, failed, checked, error_bad_data, execute, value,
  parse_duration, parse_time,
}
use frankenstein.Api.Range.{zero_step_crashes, query_range_limit}

-- A coding that knows one message
abbrev only : {M : Type 0} → M → Coding M
only m = record { marshal = λ x. ok []; unmarshal = λ bytes. ok m }

abbrev one_sample : Sample
one_sample = record { metric = (7 ∷ [], 8 ∷ []) ∷ []; value = 5; timestamp = pos 3 }

abbrev one_stream : SampleStream
one_stream = record {
  metric = (7 ∷ [], 8 ∷ []) ∷ [];
  values = record { timestamp = pos 3; value = 5 } ∷ [];
}

abbrev one_matcher : LabelMatcher
one_matcher = record { mtype = MatchType.equal; name = 7 ∷ []; value = 8 ∷ [] }

abbrev libs : Libs
libs = record {
  compress = λ bytes. 0 ∷ bytes;
  decompress = unpack;
  write_request = only (to_request (one_sample ∷ []));
  write_response = only tt;
  read_request = only (asked_for (pos 1) (pos 9) (one_matcher ∷ []));
  read_response = only (map to_named (one_stream ∷ []));
  values_request = only [];
  values_response = only [];
  new_matcher = λ t n v. ok (record { mtype = t; name = n; value = v });
}
  where
    unpack : List ℕ → Result (List ℕ)
    unpack [] = err empty_ring
    unpack (b ∷ bytes) = ok bytes

-- An appender that keeps what it gets, and a querier with one stream.
abbrev keeping : Context → List Sample → List Sample → Option Error × List Sample
keeping ctx samples w = (none, samples)

abbrev no_world : ℕ
no_world = 0

abbrev answering : Context → ℤ → ℤ → List LabelMatcher → Result (List SampleStream)
answering ctx from to matchers = ok (one_stream ∷ [])

remote_append_example :
    append libs (served (appender_handler libs keeping)) (some (1 ∷ [])) (one_sample ∷ []) []
    ≡ as_remote (keeping (some (1 ∷ [])) (one_sample ∷ []) [])
remote_append_example =
    remote_append libs (λ bytes. refl) ([], refl, refl) keeping 1 [] (one_sample ∷ []) []
      ([], refl, refl) ((tt, tt), tt)

remote_query_example :
    query libs
      (answered (query_handler libs answering))
      (some (1 ∷ []))
      (pos 1)
      (pos 9)
      (one_matcher ∷ [])
      no_world
    ≡ (as_answer (answering (some (1 ∷ [])) (pos 1) (pos 9) (one_matcher ∷ [])), no_world)
remote_query_example =
    remote_query libs answering 1 [] (pos 1) (pos 9) (one_matcher ∷ []) no_world ([], refl, refl)
      (λ matrix e.
        ([], refl, ap (λ (r : Result (List SampleStream)). r >>= λ ms. ok (map to_named ms)) e))
      (refl, tt)

-- A parser of one digit, which counts in seconds; times are whole seconds.
abbrev calls : Calls Unit Unit
calls = record {
  parse_float = digit;
  nanoseconds = λ n. pos n;
  parse_rfc3339 = λ s. none;
  parse_duration = λ s. none;
  time_from_nano = λ n. n;
  sub_time = λ a b. a;
  now = pos 0;
  earliest = pos 0;
  latest = pos 9;
  new_instant_query = λ ctx q t. ok tt;
  new_range_query = λ ctx q a b s. ok tt;
  exec = λ q. value tt;
  is_label_name = λ s. true;
  label_values = λ ctx s. ok [];
  parse_selector = λ s. ok [];
  metrics = λ ctx a b ms. ok [];
}
  where
    digit : Text → Option ℕ
    digit [] = none
    digit (b ∷ s) = some b

abbrev form : ℕ → Form
form step = record {
  query = [];
  time = [];
  start = 0 ∷ [];
  stop = 9 ∷ [];
  step = step ∷ [];
  matches = [];
}

start_run : parse_time calls (0 ∷ []) ≡ ok (pos 0)
unfolding parse_time
start_run = refl

stop_run : parse_time calls (9 ∷ []) ≡ ok (pos 9)
unfolding parse_time
stop_run = refl

step_run : (step : ℕ) → parse_duration calls (step ∷ []) ≡ ok (pos step)
unfolding parse_duration
step_run step = refl

zero_step_run : query_range calls none (form 0) ≡ crashed
zero_step_run =
    zero_step_crashes calls none (form 0) (pos 0) (pos 9) start_run stop_run (step_run 0)

query_range_limit_example : query_range calls none (form 3) ≡ (
    if leb (11001 * 3) 9
    then failed error_bad_data too_many_points
    else checked error_bad_data
        (calls.new_range_query none [] (pos 0) (pos 9) (pos 3))
        (execute calls))
query_range_limit_example =
    query_range_limit calls none (form 3) (pos 0) (pos 9) 2 9 start_run stop_run (step_run 3) refl

abbrev digit_text : ℕ → Text
digit_text n = n ∷ []

abbrev two_servers : List Srv
two_servers = record { target = 8 ∷ []; port = 2 } ∷ record { target = 7 ∷ []; port = 1 } ∷ []

abbrev other_way : List Srv
other_way = record { target = 7 ∷ []; port = 1 } ∷ record { target = 8 ∷ []; port = 2 } ∷ []

abbrev set_all : List Text → List Text → Option Error × List Text
set_all new old = (none, new)

update_memcache_servers-any_order_example :
    update_memcache_servers digit_text (insertion_sorter itself) set_all (ok two_servers) []
    ≡ update_memcache_servers digit_text (insertion_sorter itself) set_all (ok other_way) []
update_memcache_servers-any_order_example =
    update_memcache_servers-any_order digit_text (insertion_sorter itself) set_all two_servers
      other_way [] (Permᴰ.swap refl refl)

-- A client after Stop and one more round of its loop
abbrev told_to_stop : MemcacheClient
told_to_stop =
    record (new_memcache_client digit_text (insertion_sorter itself) set_all (ok two_servers)) {
      quit = true;
      ticking = false;
    }

told_to_stop_run :
    Reach digit_text
      (insertion_sorter itself)
      set_all
      (new_memcache_client digit_text (insertion_sorter itself) set_all (ok two_servers))
      told_to_stop
unfolding new_memcache_client
told_to_stop_run = Reach.next (Reach.next Reach.here (close refl refl)) (stop_ticker refl refl)

Reach-StaysUp_example : StaysUp digit_text (insertion_sorter itself) set_all told_to_stop
Reach-StaysUp_example =
    Reach-StaysUp digit_text (insertion_sorter itself) set_all (λ new old. inl refl)
      (ok two_servers) told_to_stop_run
