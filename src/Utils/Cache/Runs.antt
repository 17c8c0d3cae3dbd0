-- ===== src/Utils/Cache/Runs.antt =====
-- What holds in every run of a key of the cache (diracx-core/src/diracx/core/utils.py).
use diracx.Prelude.{
  ◌≤◌, Bool, true, false, ◌||◌, ◌≡◌, refl, ap, ◌∙◌, Option, none, some, arith, nat_eq,
  if◌then◌else◌,
}
use diracx.Prelude.Outcome.{key_error, not_ready_error, err}
use diracx.Utils.Cache.{
  KeyState, Answer, answers, waits, empty_key, found, submit, read_hard, get_slow, get_soft, get,
  after_wait, Step, gets, works, fails, expires_soft, expires_hard, Reaches, start, next,
}

-- At most one population of the key runs, and only with an entry in `futures`.
pub record IsSingle {V : Type 0} (s : KeyState V) : Type 0 where
  pub few : s.workers ≤ 1
  pub tracked : (s.has_future || nat_eq s.workers 0) ≡ true

-- A population failed, and nothing is cached.
pub record IsStuck {V : Type 0} (s : KeyState V) : Type 0 where
  pub no_soft : s.soft ≡ none
  pub no_hard : s.hard ≡ none
  pub registered : s.has_future ≡ true
  pub idle : s.workers ≡ 0

module _ {V : Type 0} (truthy : V → Bool) where
  submit-IsSingle : (s : KeyState V) → IsSingle s → IsSingle (submit truthy s)
  unfolding submit
  submit-IsSingle s b = record {
    few = ground (arith, b.few, b.tracked);
    tracked = ground (arith, b.few, b.tracked);
  }

  read_hard-IsSingle :
      (blocking : Bool) (o : Option V) (s : KeyState V)
      → IsSingle s
      → IsSingle (read_hard truthy blocking o s).0
  unfolding read_hard
  read_hard-IsSingle blocking none s b = b
  read_hard-IsSingle blocking (some v) s b = record { few = b.few; tracked = b.tracked }

  get_slow-IsSingle :
      (blocking acquired : Bool) (s : KeyState V)
      → IsSingle s
      → IsSingle (get_slow truthy blocking acquired s).0
  unfolding get_slow
  get_slow-IsSingle blocking true s b =
      read_hard-IsSingle blocking _ (submit truthy s) (submit-IsSingle s b)
  get_slow-IsSingle blocking false s b = b

  get_soft-IsSingle :
      (blocking lock_free : Bool) (o : Option V) (s : KeyState V)
      → IsSingle s
      → IsSingle (get_soft truthy blocking lock_free o s).0
  unfolding get_soft
  get_soft-IsSingle blocking lock_free (some v) s b = b
  get_soft-IsSingle blocking lock_free none s b =
      get_slow-IsSingle blocking (blocking || lock_free) s b

  get-IsSingle :
      (blocking lock_free : Bool) (s : KeyState V)
      → IsSingle s
      → IsSingle (get truthy blocking lock_free s).0
  unfolding get
  get-IsSingle blocking lock_free s b =
      get_soft-IsSingle blocking lock_free (found truthy s.soft) s b

  Step-IsSingle : (s s' : KeyState V) → Step truthy s s' → IsSingle s → IsSingle s'
  Step-IsSingle s s' (gets blocking lock_free _) b = get-IsSingle blocking lock_free s b
  Step-IsSingle s s' (works v others _ e) b = record {
    few = omega (arith, b.few, e);
    tracked = ground (arith, b.few, e);
  }
  Step-IsSingle s s' (fails others _ e) b = record {
    few = omega (arith, b.few, e);
    tracked = ground (arith, b.few, e);
  }
  Step-IsSingle s s' (expires_soft _) b = record { few = b.few; tracked = b.tracked }
  Step-IsSingle s s' (expires_hard _) b = record { few = b.few; tracked = b.tracked }

  -- In every run without `clear` from the empty cache, at most one population of a key runs at a time, and only while the key has an
  -- entry in the table of futures.
  pub Reaches-IsSingle : (s : KeyState V) → Reaches truthy empty_key s → IsSingle s
  Reaches-IsSingle s (start _) = record { few = omega arith; tracked = refl }
  Reaches-IsSingle s (next _ s' _ run step) = Step-IsSingle s' s step (Reaches-IsSingle s' run)

  -- a state that is stuck is one state
  abbrev stuck : KeyState V
  stuck = record { soft = none; hard = none; has_future = true; workers = 0 }

  IsStuck-stuck : (s : KeyState V) → IsStuck s → s ≡ stuck
  IsStuck-stuck s b = cc (b.no_soft, b.no_hard, b.registered, b.idle)

  stuck-IsStuck : (s : KeyState V) → s ≡ stuck → IsStuck s
  stuck-IsStuck s e = record {
    no_soft = ap (λ (x : KeyState V). x.soft) e;
    no_hard = ap (λ (x : KeyState V). x.hard) e;
    registered = ap (λ (x : KeyState V). x.has_future) e;
    idle = ap (λ (x : KeyState V). x.workers) e;
  }

  get-stuck :
      (blocking lock_free : Bool)
      → get truthy blocking lock_free stuck
        ≡ (stuck, (if blocking then waits else answers (err not_ready_error)))
  unfolding get get_soft get_slow submit read_hard
  get-stuck true lock_free = refl
  get-stuck false true = refl
  get-stuck false false = refl

  Step-IsStuck : (s s' : KeyState V) → Step truthy s s' → IsStuck s → IsStuck s'
  Step-IsStuck s s' (gets blocking lock_free _) b = stuck-IsStuck _ (
      ap (λ (x : KeyState V). (get truthy blocking lock_free x).0) (IsStuck-stuck s b)
      ∙ ap (λ (x : KeyState V × Answer V). x.0) (get-stuck blocking lock_free))
  Step-IsStuck s s' (works v others _ e) b = cc (b.idle, e)
  Step-IsStuck s s' (fails others _ e) b = cc (b.idle, e)
  Step-IsStuck s s' (expires_soft _) b = record {
    no_soft = refl;
    no_hard = b.no_hard;
    registered = b.registered;
    idle = b.idle;
  }
  Step-IsStuck s s' (expires_hard _) b = record {
    no_soft = b.no_soft;
    no_hard = refl;
    registered = b.registered;
    idle = b.idle;
  }

  Reaches-IsStuck : (s s' : KeyState V) → Reaches truthy s s' → IsStuck s → IsStuck s'
  Reaches-IsStuck s s' (start _) b = b
  Reaches-IsStuck s s' (next _ t _ run step) b = Step-IsStuck t s' step (Reaches-IsStuck s t run b)

  -- From a state after a population that failed with nothing cached, no run without `clear` starts another population: a
  -- blocking call waits and then raises KeyError, and another call raises NotReadyError.
  pub Reaches-fails :
      (s s' : KeyState V) (blocking lock_free : Bool)
      → IsStuck s
      → Reaches truthy s s'
      → ((get truthy blocking lock_free s').1
          ≡ (if blocking then waits else answers (err not_ready_error)))
        × (after_wait s' ≡ err key_error)
        × (s'.workers ≡ 0)
  unfolding after_wait
  Reaches-fails s s' blocking lock_free b run =
      let c = Reaches-IsStuck s s' run b in
      let e = IsStuck-stuck s' c in
      (
        ap (λ (x : KeyState V). (get truthy blocking lock_free x).1) e
            ∙ ap (λ (x : KeyState V × Answer V). x.1) (get-stuck blocking lock_free),
        rw c.no_hard refl,
        c.idle,
      )
