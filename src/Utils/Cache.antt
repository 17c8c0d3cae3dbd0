-- ===== src/Utils/Cache.antt =====
-- `TwoLevelCache` (diracx-core/src/diracx/core/utils.py), for one key: the two caches, whether the key has an entry in
-- `futures`, and the number of `_work` calls of the key that have not ended. What a thread does while it holds the
-- key's lock is one step.
pub mod Runs
use diracx.Prelude.{
  ℕ, zero, suc, ◌+◌, Bool, true, false, not, ◌&&◌, ◌||◌, ◌≡◌, Option, none, some, if◌then◌else◌,
}
use diracx.Prelude.Outcome.{key_error, not_ready_error, Result, ok, err}

pub record KeyState (V : Type 0) : Type 0 where
  pub soft : Option V
  pub hard : Option V
  pub has_future : Bool
  pub workers : ℕ

-- what a call of `get` comes to: an answer or an exception, or the wait for the future
pub data Answer (V : Type 0) : Type 0 where
  answers : Result V → Answer V
  waits : Answer V

abbrev pub empty_key : {V : Type 0} → KeyState V
empty_key = record { soft = none; hard = none; has_future = false; workers = 0 }

module _ {V : Type 0} (truthy : V → Bool) where
  -- `if result := cache.get(key)`
  abbrev pub found : Option V → Option V
  found none = none
  found (some v) = if truthy v then some v else none

  -- `if key not in self.futures: self.futures[key] = self.pool.submit(...)`
  unfoldable pub submit : KeyState V → KeyState V
  submit s = if s.has_future then s else record s { has_future = true; workers = s.workers + 1 }

  -- the end of `get`: the hard cache, or NotReadyError
  abbrev pub last_resort : Option V → Answer V
  last_resort none = answers (err not_ready_error)
  last_resort (some v) = answers (ok v)

  abbrev pub after_miss : Bool → Option V → Answer V
  after_miss true hard = waits
  after_miss false hard = last_resort hard

  -- the region under the lock, once a population is on its way, and what follows it
  unfoldable pub read_hard : Bool → Option V → KeyState V → KeyState V × Answer V
  read_hard blocking none s = (s, after_miss blocking none)
  read_hard blocking (some v) s = (record s { soft = some v }, answers (ok v))

  -- after a miss of the soft cache, by whether the lock is acquired
  unfoldable pub get_slow : Bool → Bool → KeyState V → KeyState V × Answer V
  unfolding submit read_hard
  get_slow blocking true s = read_hard blocking (found s.hard) (submit s)
  get_slow blocking false s = (s, last_resort (found s.hard))

  -- `blocking` acquires the lock always, and `lock_free` says whether it is free otherwise
  unfoldable pub get_soft : Bool → Bool → Option V → KeyState V → KeyState V × Answer V
  unfolding get_slow
  get_soft blocking lock_free (some v) s = (s, answers (ok v))
  get_soft blocking lock_free none s = get_slow blocking (blocking || lock_free) s

  unfoldable pub get : Bool → Bool → KeyState V → KeyState V × Answer V
  unfolding get_soft
  get blocking lock_free s = get_soft blocking lock_free (found s.soft) s

-- `return self.hard_cache[key]`, after the wait
unfoldable pub after_wait : {V : Type 0} → KeyState V → Result V
after_wait s = elim s.hard [ none ↦ err key_error | some v ↦ ok v ]

-- the end of `_work`, when `populate_func` has returned
abbrev pub store : {V : Type 0} → V → ℕ → KeyState V → KeyState V
store v others s = record s { soft = some v; hard = some v; has_future = false; workers = others }

-- A step of a thread or of the clock.
pub data Step {V : Type 0} (truthy : V → Bool) : KeyState V → KeyState V → Type 0 where
  gets :
      (blocking lock_free : Bool) (s : KeyState V)
      → Step truthy s (get truthy blocking lock_free s).0
  works :
      (v : V) (others : ℕ) (s : KeyState V)
      → s.workers ≡ suc others
      → Step truthy s (store v others s)
  fails :
      (others : ℕ) (s : KeyState V)
      → s.workers ≡ suc others
      → Step truthy s (record s { workers = others })
  expires_soft : (s : KeyState V) → Step truthy s (record s { soft = none })
  expires_hard : (s : KeyState V) → Step truthy s (record s { hard = none })

pub data Reaches {V : Type 0} (truthy : V → Bool) : KeyState V → KeyState V → Type 0 where
  start : (s : KeyState V) → Reaches truthy s s
  next : (s s' s'' : KeyState V) → Reaches truthy s s' → Step truthy s' s'' → Reaches truthy s s''
