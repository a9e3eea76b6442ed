-- ===== src/Ring/Consul/Watch.antt =====
-- The pause of `WatchKey`.
use frankenstein.Prelude.{ℕ, ◌≤◌, Bool, List, [], ◌∷◌, Option, none, some, arith}
use frankenstein.Ring.Consul.{
  Codec, Answer, failed, answer, WatchState, initial_backoff, max_backoff, wait, start_watch, poll,
  watch_key,
}

abbrev pub InBounds : ℕ → Type 0
InBounds backoff = (initial_backoff ≤ backoff) × (backoff ≤ max_backoff)

module _ {V : Type 0} (codec : Codec V) (f : Option V → Bool) where
  poll-InBounds :
      (a : Answer) (s : WatchState V) → InBounds s.backoff → InBounds (poll codec f a s).0.backoff
  unfolding poll wait
  poll-InBounds failed s h = ground arith
  poll-InBounds (answer none last_index) s h = ground arith
  poll-InBounds (answer (some bytes) last_index) s h = ground arith

  watch_key-InBounds :
      (answers : List Answer) (s : WatchState V)
      → InBounds s.backoff
      → InBounds (watch_key codec f answers s).backoff
  unfolding watch_key
  watch_key-InBounds [] s h = h
  watch_key-InBounds (a ∷ answers) s h = ground (
    arith,
    poll-InBounds a s h,
    watch_key-InBounds answers (poll codec f a s).0 (poll-InBounds a s h),
  )

  -- However the polls go, the pause after a failed poll is between one second and one minute.
  pub backoff_bounds :
      (answers : List Answer) → InBounds (watch_key codec f answers (start_watch codec f)).backoff
  backoff_bounds answers = watch_key-InBounds answers (start_watch codec f) (omega arith)
