-- ===== src/Alerting/Store.antt =====
-- alerting/alert_store.py: the interface of the state that alert rules share, and what the dispatcher
-- relies on. The store's data stands for a counter for each key, which counts until it expires, and
-- for the times at which the registered windows close.
pub mod InProcess
use radicalbit_ai_gateway.Prelude.{
  ℕ, suc, ◌+◌, ◌≤◌, ◌≡◌, Bool, true, false, Option, none, some, List, Text, text_eq, leb,
  if◌then◌else◌,
}
use radicalbit_ai_gateway.Limiter.Machine.{Machine, Op}

pub record AlertStore (S : Type 0) : Type 0 where
  -- key, ttl_seconds
  pub claim : Text → ℕ → Op S Bool
  pub increment : Text → ℕ → Op S ℕ
  pub take : Text → Op S ℕ
  -- window, closes_at
  pub open_window : Text → ℕ → Op S (Unit {0})
  pub windows_due : ℕ → Op S (List Text)
  pub close_window : Text → Op S Bool

-- An entry of `_values`.
pub record Value : Type 0 where
  pub value : ℕ
  pub expires_at : ℕ

-- `_live`, at a time
abbrev pub live : ℕ → Option Value → Option ℕ
live now none = none
live now (some v) = if leb v.expires_at now then none else some v.value

abbrev pub Values : Type 0
Values = Text → Option Value

abbrev pub or_zero : Option ℕ → ℕ
or_zero none = 0
or_zero (some n) = n

abbrev pub is_none : Option ℕ → Bool
is_none none = true
is_none (some n) = false

-- From time `now` on, the two count the same at all keys but `k`.
abbrev pub SameBut : Text → ℕ → Values → Values → Type 0
SameBut k now a b = (t : ℕ) (j : Text) → now ≤ t → text_eq k j ≡ false → live t (a j) ≡ live t (b j)

module _ {S : Type 0} (values : S → Values) where
  -- `claim` sets the key if it is not live, and says whether it did.
  pub record Claims (k : Text) (ttl : ℕ) (m : Machine S) (r : Bool × Machine S) : Type 0 where
    pub at : ℕ
    pub started : m.clock ≤ at
    pub later : at ≤ r.1.clock
    pub reply : r.0 ≡ is_none (live at (values m.store k))
    pub taken :
        r.0 ≡ true
        → (t : ℕ) → r.1.clock ≤ t
        → live t (values r.1.store k)
          ≡ live t (some (record { value = 1; expires_at = r.1.clock + ttl }))
    pub refused :
        r.0 ≡ false
        → (t : ℕ) → r.1.clock ≤ t
        → live t (values r.1.store k) ≡ live t (values m.store k)
    pub others : SameBut k r.1.clock (values r.1.store) (values m.store)

  -- `increment` adds one to what is live, and gives the sum a new time to live.
  pub record Adds (k : Text) (ttl : ℕ) (m : Machine S) (r : ℕ × Machine S) : Type 0 where
    pub at : ℕ
    pub started : m.clock ≤ at
    pub later : at ≤ r.1.clock
    pub reply : r.0 ≡ suc (or_zero (live at (values m.store k)))
    pub effect :
        (t : ℕ)
        → r.1.clock ≤ t
        → live t (values r.1.store k)
          ≡ live t (some (record { value = r.0; expires_at = r.1.clock + ttl }))
    pub others : SameBut k r.1.clock (values r.1.store) (values m.store)

  -- `take` removes the key and returns what was live.
  pub record Takes (k : Text) (m : Machine S) (r : ℕ × Machine S) : Type 0 where
    pub at : ℕ
    pub started : m.clock ≤ at
    pub later : at ≤ r.1.clock
    pub reply : r.0 ≡ or_zero (live at (values m.store k))
    pub effect : (t : ℕ) → r.1.clock ≤ t → live t (values r.1.store k) ≡ none
    pub others : SameBut k r.1.clock (values r.1.store) (values m.store)

-- What the dispatcher relies on.
pub record IsAlertStore {S : Type 0} (s : AlertStore S) : Type 0 where
  pub values : S → Values
  -- the time at which a registered window closes
  pub opened : S → Text → Option ℕ
  pub claim_lem : (k : Text) (ttl : ℕ) (m : Machine S) → Claims values k ttl m (s.claim k ttl m)
  pub increment_lem :
      (k : Text) (ttl : ℕ) (m : Machine S) → Adds values k ttl m (s.increment k ttl m)
  pub take_lem : (k : Text) (m : Machine S) → Takes values k m (s.take k m)
  -- the windows have no effect on the values, nor the values on the windows
  pub open_window-values :
      (w : Text) (at : ℕ) (m : Machine S) (j : Text)
      → values (s.open_window w at m).1.store j ≡ values m.store j
  pub open_window-clock :
      (w : Text) (at : ℕ) (m : Machine S) → (s.open_window w at m).1.clock ≡ m.clock
  pub open_window-opened :
      (w : Text) (at : ℕ) (m : Machine S) (j : Text)
      → opened (s.open_window w at m).1.store j
        ≡ (if text_eq w j then some at else opened m.store j)
  pub close_window-opened :
      (w : Text) (m : Machine S) (j : Text)
      → opened (s.close_window w m).1.store j ≡ (if text_eq w j then none else opened m.store j)
  pub close_window-values :
      (w : Text) (m : Machine S) (j : Text)
      → values (s.close_window w m).1.store j ≡ values m.store j
  pub close_window-clock : (w : Text) (m : Machine S) → (s.close_window w m).1.clock ≡ m.clock
