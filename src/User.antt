-- ===== src/User.antt =====
-- user/id.go: the user ID that a context carries. A context is here what it holds under that key.
use frankenstein.Prelude.{Option, none, some}
use frankenstein.Prelude.Order.{Text}
use frankenstein.Prelude.Result.{Result, ok, err, no_user_id}

abbrev pub Context : Type 0
Context = Option Text

abbrev pub get_id : Context → Result Text
get_id none = err no_user_id
get_id (some user_id) = ok user_id

abbrev pub with_id : Context → Text → Context
with_id ctx user_id = some user_id
