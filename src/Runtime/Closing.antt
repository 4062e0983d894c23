-- ===== src/Runtime/Closing.antt =====
-- The order in which `close` of DatabaseRuntime, src/butterbot/infrastructure/persistence/database.py,
-- gives things up, over any number of calls.
use butterbot.Base.{
  if_cases, &&-true, arith, ℕ, Bool, true, false, not, ◌&&◌, ◌||◌, Option, none, some, List, [],
  ◌∷◌, ◌++◌, any, ◌==◌, ◌≡◌, refl, ap, is_empty,
}
use mathlib.Core.List.{Memᴰ}
use butterbot.Lifecycle.{Registration, Closing, UnitOfWorkLifecycle, end_drain}
use butterbot.Lifecycle.Draining.{IsDrained, end_drain-IsDrained, end_drain_returns, closes_all}
use butterbot.Lifecycle.Steps.{Reachable}
use butterbot.ProcessLock.{Held, release}
use butterbot.Result.{Result, ok, err}
use butterbot.Runtime.{
  DatabaseRuntime, Attempt, is_ok, owns_task, dispose_and_release, drains, close_once, close,
  close_all,
}

-- Every call finds a lifecycle that a new one can become.
abbrev pub AllReachable : List Attempt → Type 0
AllReachable [] = Unit
AllReachable (a ∷ rest) = Reachable a.lifecycle × AllReachable rest

-- The runtime still has its process lock, or all has ended: one of the calls found nothing that kept
-- the drain of its lifecycle from ending, with all closed, and could dispose of the engine and release
-- the lock; the monitor is closed, the engine disposed of and the lock released.
pub data IsOrderly (attempts : List Attempt) (held : Held) (r : DatabaseRuntime) : Type 0 where
  keeps_lock : r.held ≡ held → r.closed ≡ false → IsOrderly attempts held r
  has_ended :
      (a : Attempt)
      → Memᴰ a attempts
      → (l : UnitOfWorkLifecycle) → end_drain a.owners_pending a.attempts a.lifecycle ≡ ok l
      → IsDrained l
      → a.disposes ≡ true
      → a.releases ≡ true
      → r.monitor_closed ≡ true
      → r.engine_open ≡ false
      → r.held ≡ release held
      → r.closed ≡ true
      → IsOrderly attempts held r

drained :
    (a : Attempt) (result : Result UnitOfWorkLifecycle)
    → Reachable a.lifecycle
    → end_drain a.owners_pending a.attempts a.lifecycle ≡ result
    → is_ok result ≡ true
    → (m : UnitOfWorkLifecycle) × (end_drain a.owners_pending a.attempts a.lifecycle ≡ ok m)
      × IsDrained m
drained a (ok m) r e h = (m, e, end_drain-IsDrained a.owners_pending a.attempts r e)
drained a (err x) r e h = absurd (ground arith)

not-false : (b : Bool) → not b ≡ false → b ≡ true
not-false b h = ground arith

module _ (attempts : List Attempt) (held : Held) where
  module _ (a : Attempt) (one : Memᴰ a attempts) where
    release-IsOrderly :
        (r : DatabaseRuntime) (l : UnitOfWorkLifecycle)
        → end_drain a.owners_pending a.attempts a.lifecycle ≡ ok l
        → IsDrained l
        → r.monitor_closed ≡ true
        → r.held ≡ held
        → r.closed ≡ false
        → IsOrderly attempts held (dispose_and_release a r)
    unfolding dispose_and_release
    release-IsOrderly r l ends d m h c =
        if_cases (IsOrderly attempts held) (not a.disposes) _ _ (λ _. keeps_lock h c)
          λ disposes.
            if_cases (IsOrderly attempts held) (not a.releases) _ _ (λ _. keeps_lock h c)
              λ releases.
                has_ended a one l ends d (not-false a.disposes disposes)
                  (not-false a.releases releases) m refl (ap release h) refl

    once-IsOrderly :
        (r : DatabaseRuntime)
        → Reachable a.lifecycle
        → r.held ≡ held
        → r.closed ≡ false
        → IsOrderly attempts held (close_once a r)
    unfolding close_once
    once-IsOrderly r reached h c =
        if_cases (IsOrderly attempts held) ((r.monitor_closed || a.monitor_closes) && drains a) _ _
          (λ both.
            let each = &&-true _ _ both in
            let done = drained a _ reached refl each.1 in
            release-IsOrderly (record r { monitor_closed = r.monitor_closed || a.monitor_closes })
              done.0 done.1 done.2 each.0 h c)
          λ _. keeps_lock h c

    unclosed :
        (r : DatabaseRuntime)
        → r.closed ≡ false
        → Reachable a.lifecycle
        → IsOrderly attempts held r
        → IsOrderly attempts held (close_once a r)
    unclosed r open_still reached (keeps_lock h c) = once-IsOrderly r reached h c
    unclosed r open_still reached (has_ended b k l f d x y m e h c) = absurd (ground arith)

    close-IsOrderly :
        (r : DatabaseRuntime)
        → Reachable a.lifecycle
        → IsOrderly attempts held r
        → IsOrderly attempts held (close a r)
    unfolding close
    close-IsOrderly r reached old =
        if_cases (IsOrderly attempts held) (owns_task a.current a.lifecycle) _ _ (λ _. old)
          λ _.
            if_cases (IsOrderly attempts held) r.closed _ _ (λ _. old)
              λ open_still. unclosed r open_still reached old

  some_closed :
      (rest : List Attempt) (r : DatabaseRuntime)
      → ((a : Attempt) → Memᴰ a rest → Memᴰ a attempts)
      → AllReachable rest
      → IsOrderly attempts held r
      → IsOrderly attempts held (close_all rest r)
  unfolding close_all
  some_closed [] r among reached old = old
  some_closed (a ∷ rest) r among (one, others) old =
      some_closed rest (close a r) (λ b k. among b (Memᴰ.tail k)) others
        (close-IsOrderly a (among a (Memᴰ.head refl)) r one old)

-- However often a runtime that has its process lock is asked to close, it keeps the lock until one of
-- the calls has drained the transactions of the lifecycle that it finds, which is one that a new one
-- can become, and can dispose of the engine and release the lock, with the monitor closed and the
-- engine disposed of.
pub close_all-IsOrderly :
    (attempts : List Attempt) (held : Held) (r : DatabaseRuntime)
    → AllReachable attempts
    → IsOrderly attempts held r
    → IsOrderly attempts held (close_all attempts r)
close_all-IsOrderly attempts held r reached old =
    some_closed attempts held attempts r (λ a k. k) reached old

drained-all :
    (pending : Bool) (attempts : ℕ → Option Closing) (l : UnitOfWorkLifecycle)
    → pending ≡ false
    → is_empty l.active ≡ true
    → attempts ≡ closes_all
    → is_ok (end_drain pending attempts l) ≡ true
drained-all pending attempts l waited empty closing =
    let back = end_drain_returns l empty in rw (waited, closing, back.1) refl

any-empty {ℓ} : {A : Type ℓ} (p : A → Bool) (xs : List A) → is_empty xs ≡ true → any p xs ≡ false
any-empty p [] empty = refl
any-empty p (x ∷ xs) empty = absurd (ground arith)

nobody_inside :
    (current : Option ℕ) (l : UnitOfWorkLifecycle)
    → is_empty l.active ≡ true
    → owns_task current l ≡ false
nobody_inside none l empty = refl
nobody_inside (some task) l empty = any-empty (λ (r : Registration). r.owner == task) l.active empty

close_ends :
    (inside drained_all : Bool) (a : Attempt) (r : DatabaseRuntime)
    → owns_task a.current a.lifecycle ≡ inside
    → drains a ≡ drained_all
    → inside ≡ false
    → drained_all ≡ true
    → (a.monitor_closes && a.disposes && a.releases) ≡ true
    → (close a r).closed ≡ true
unfolding close close_once dispose_and_release
close_ends inside drained_all a r is_inside is_drained e d ends = ground arith

-- Whatever calls came before, one in which no unit is active, every resource can be closed, and the
-- monitor, the engine and the lock can be given up, closes the runtime.
pub close_all_ends :
    (attempts : List Attempt) (a : Attempt) (r : DatabaseRuntime)
    → a.owners_pending ≡ false
    → is_empty a.lifecycle.active ≡ true
    → a.attempts ≡ closes_all
    → (a.monitor_closes && a.disposes && a.releases) ≡ true
    → (close_all (attempts ++ (a ∷ [])) r).closed ≡ true
unfolding close_all
close_all_ends (b ∷ rest) a r waited empty closing ends =
    close_all_ends rest a (close b r) waited empty closing ends
close_all_ends [] a r waited empty closing ends =
    close_ends _ _ a r refl refl (nobody_inside a.current a.lifecycle empty)
      (drained-all a.owners_pending a.attempts a.lifecycle waited empty closing) ends
