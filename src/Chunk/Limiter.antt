-- ===== src/Chunk/Limiter.antt =====
-- chunk/semaphore.go, and the two loops of chunk/chunk_store.go that start goroutines under it:
-- `putChunks` and `updateIndex`. One call of them, and what all other calls hold of the semaphore.
use native.Mathlib.Decide.{dec_lt}
use frankenstein.Prelude.{ℕ, zero, suc, ◌+◌, ◌-◌, ◌≤◌, ◌<◌, ◌≡◌, refl, ◌⊎◌, inl, inr, arith}

abbrev pub max_concurrent_puts : ℕ
max_concurrent_puts = 100

-- The state of a call. The channel of errors has no buffer, so a goroutine waits in its send until
-- the loop that receives takes the error; it releases its permit only then.
pub record Call : Type 0 where
  pub permits : ℕ  -- what the semaphore's channel holds
  pub elsewhere : ℕ  -- permits that other calls hold
  pub waiting : ℕ  -- chunks with no goroutine yet: the first loop is at Acquire
  pub working : ℕ  -- goroutines in putChunk
  pub sending : ℕ  -- goroutines in `incomingErrors <-`
  pub releasing : ℕ  -- goroutines at Release
  pub received : ℕ  -- rounds of the second loop that are over

-- A call with `n` chunks, as it begins: other calls hold some of the permits.
unfoldable pub start : ℕ → ℕ → ℕ → Call
start free elsewhere n = record {
  permits = free;
  elsewhere = elsewhere;
  waiting = n;
  working = 0;
  sending = 0;
  releasing = 0;
  received = 0;
}

pub data Step (s : Call) (t : Call) : Type 0 where
  -- Acquire, and the start of a goroutine
  acquire :
      0 < s.waiting
      → 0 < s.permits
      → t ≡ record s { permits = s.permits - 1; waiting = s.waiting - 1; working = s.working + 1 }
      → Step s t
  -- putChunk returns
  finish :
      0 < s.working → t ≡ record s { working = s.working - 1; sending = s.sending + 1 } → Step s t
  -- The second loop receives: it begins when the first is over.
  receive :
      s.waiting ≡ 0
      → 0 < s.sending
      → t ≡ record s {
        sending = s.sending - 1;
        releasing = s.releasing + 1;
        received = s.received + 1;
      }
      → Step s t
  release :
      0 < s.releasing
      → t ≡ record s { releasing = s.releasing - 1; permits = s.permits + 1 }
      → Step s t

-- Acquire and Release of other calls
pub data OtherStep (s : Call) (t : Call) : Type 0 where
  other_acquire :
      0 < s.permits
      → t ≡ record s { permits = s.permits - 1; elsewhere = s.elsewhere + 1 }
      → OtherStep s t
  other_release :
      0 < s.elsewhere
      → t ≡ record s { permits = s.permits + 1; elsewhere = s.elsewhere - 1 }
      → OtherStep s t

pub data Reach (s : Call) : Call → Type 0 where
  here : Reach s s
  next : {t u : Call} → Reach s t → Step t u → Reach s u
  next_other : {t u : Call} → Reach s t → OtherStep t u → Reach s u

-- The call has received an error from each of its `n` goroutines and returns.
abbrev pub IsDone : ℕ → Call → Type 0
IsDone n s = s.received ≡ n

record Inv (size n : ℕ) (s : Call) : Type 0 where
  held : s.permits + s.elsewhere + s.working + s.sending + s.releasing ≡ size
  each : s.waiting + s.working + s.sending + s.received ≡ n
  order : (s.waiting ≡ 0) ⊎ ((s.received ≡ 0) × (s.releasing ≡ 0))
  crowd : (n ≤ size) ⊎ (0 < s.waiting)
  freed : s.releasing ≤ s.received

start-Inv : (free elsewhere n : ℕ) → Inv (free + elsewhere) n (start free elsewhere n)
unfolding start
start-Inv free elsewhere n = record {
  held = omega arith;
  each = omega arith;
  order = inr (refl, refl);
  crowd = ground arith;
  freed = omega arith;
}

Step-Inv : {size n : ℕ} {s t : Call} → Step s t → Inv size n s → Inv size n t
Step-Inv (acquire w p e) v = ground (arith, e, v.held, v.each, v.order, v.crowd, v.freed)
Step-Inv (finish w e) v = ground (arith, e, v.held, v.each, v.order, v.crowd, v.freed)
Step-Inv (receive z w e) v = ground (arith, e, v.held, v.each, v.order, v.crowd, v.freed)
Step-Inv (release w e) v = ground (arith, e, v.held, v.each, v.order, v.crowd, v.freed)

OtherStep-Inv : {size n : ℕ} {s t : Call} → OtherStep s t → Inv size n s → Inv size n t
OtherStep-Inv (other_acquire p e) v = ground (arith, e, v.held, v.each, v.order, v.crowd, v.freed)
OtherStep-Inv (other_release p e) v = ground (arith, e, v.held, v.each, v.order, v.crowd, v.freed)

Reach-Inv :
    (free elsewhere n : ℕ) {s : Call}
    → Reach (start free elsewhere n) s
    → Inv (free + elsewhere) n s
Reach-Inv free elsewhere n here = start-Inv free elsewhere n
Reach-Inv free elsewhere n (next r st) = Step-Inv st (Reach-Inv free elsewhere n r)
Reach-Inv free elsewhere n (next_other r st) = OtherStep-Inv st (Reach-Inv free elsewhere n r)

-- With more chunks than the semaphore has permits, a call of putChunks never receives an error and
-- never returns, in whatever order its goroutines and other calls that share the semaphore run.
pub too_many_never_done :
    (free elsewhere n : ℕ) {s : Call}
    → free + elsewhere < n
    → Reach (start free elsewhere n) s
    → (s.received ≡ 0)
      × (0 < s.waiting)
      × (s.permits + s.elsewhere + s.working + s.sending ≡ free + elsewhere)
too_many_never_done free elsewhere n lt r =
    let v = Reach-Inv free elsewhere n r in ground (arith, v.held, v.each, v.order, v.crowd)

-- In every state that a call of putChunks reaches, while other calls take and release permits of
-- the same semaphore, it is done, or it can make a step itself, as long as the permits that other
-- calls hold leave it one for each of its chunks.
pub few_get-IsDone :
    (free elsewhere n : ℕ) {s : Call}
    → Reach (start free elsewhere n) s
    → s.elsewhere + n ≤ free + elsewhere
    → IsDone n s ⊎ ((t : Call) × Step s t)
few_get-IsDone free elsewhere n {s} r le = progress (Reach-Inv free elsewhere n r)
  where
    progress : Inv (free + elsewhere) n s → IsDone n s ⊎ ((t : Call) × Step s t)
    progress v = elim (dec_lt 0 s.working) [
      | yes w ↦ inr (_, finish w refl)
      | no idle ↦ elim (dec_lt 0 s.releasing) [
        | yes w ↦ inr (_, release w refl)
        | no quiet ↦ elim (dec_lt 0 s.waiting) [
          | yes w ↦ inr (_, acquire w (ground (arith, v.held, v.each, v.order)) refl)
          | no over ↦ elim (dec_lt 0 s.sending) [
            | yes w ↦ inr (_, receive (omega arith) w refl)
            | no empty ↦ inl (omega (arith, v.each))
          ]
        ]
      ]
    ]

-- A call after some of its goroutines have come to their sends, each with a permit
record AtSends (free elsewhere n k : ℕ) (s : Call) : Type 0 where
  reached : Reach (start free elsewhere n) s
  permits_left : s.permits + k ≡ free
  others : s.elsewhere ≡ elsewhere
  left : s.waiting + k ≡ n
  counts : (s.working ≡ 0) × (s.sending ≡ k) × (s.releasing ≡ 0) × (s.received ≡ 0)

start_sends :
    (free elsewhere n k : ℕ) → k ≤ free → k ≤ n → (s : Call) × AtSends free elsewhere n k s
unfolding start
start_sends free elsewhere n zero f l = (
  start free elsewhere n,
  record {
    reached = here;
    permits_left = omega arith;
    others = refl;
    left = omega arith;
    counts = (refl, refl, refl, refl);
  },
)
start_sends free elsewhere n (suc k) f l =
    let (s, at) = start_sends free elsewhere n k (omega arith) (omega arith) in
    let acquired = acquire (omega (arith, at.left)) (omega (arith, at.permits_left)) refl in
    (
      _,
      record {
        reached = next (next at.reached acquired) (finish (omega arith) refl);
        permits_left = omega (arith, at.permits_left);
        others = at.others;
        left = omega (arith, at.left);
        counts = (omega (arith, at.counts), omega (arith, at.counts), at.counts.2, at.counts.3);
      },
    )

-- A call with more chunks than the permits that other calls have left can come to a state in which it
-- is not done and can make no step itself, while the others hold what they did.
pub calls_get_stuck :
    (free elsewhere n : ℕ)
    → free < n
    → (s : Call) × Reach (start free elsewhere n) s
      × (s.elsewhere ≡ elsewhere)
      × ¬ (IsDone n s)
      × ((t : Call) → ¬ (Step s t))
calls_get_stuck free elsewhere n lt =
    let (s, at) = start_sends free elsewhere n free (omega arith) (omega arith) in
    (s, at.reached, at.others, (λ d. ground (arith, d, at.counts, lt)), λ t st. stuck s at t st)
  where
    stuck : (s : Call) → AtSends free elsewhere n free s → (t : Call) → Step s t → ⊥
    stuck s at t (acquire w p e) = omega (arith, p, at.permits_left)
    stuck s at t (finish w e) = ground (arith, w, at.counts)
    stuck s at t (receive z w e) = omega (arith, z, at.left, lt)
    stuck s at t (release w e) = ground (arith, w, at.counts)
