-- ===== src/Limiting/Credential/Checks/Empty.antt =====
-- limiting/credential_limiter.py: the checks over a backend without counters, as the constructor makes
-- it for each request where no Redis server is configured.
use radicalbit_ai_gateway.Prelude.{ℕ, ◌≤◌, ◌≡◌, refl, List, [], ◌∷◌, ◌++◌, Text, arith, All}
use radicalbit_ai_gateway.Prelude.Result.{Result, ok}
use radicalbit_ai_gateway.Limiter.Machine.{Env}
use radicalbit_ai_gateway.Limiter.Storage.{Storage, IsBackend}
use radicalbit_ai_gateway.Limiter.Base.Counting.{counted}
use radicalbit_ai_gateway.Limiting.World.{LimitError, World}
use radicalbit_ai_gateway.Limiting.Room.{Active}
use radicalbit_ai_gateway.Limiting.Room.Verdict.{counter_of}
use radicalbit_ai_gateway.Limiting.Entries.Verdict.{Decision, accepts, rejects}
use radicalbit_ai_gateway.Limiting.Entries.Counts.{key_of}
use radicalbit_ai_gateway.Limiting.Credential.{Category, CredentialLimiter, entries_of}
use radicalbit_ai_gateway.Limiting.Credential.Checks.{
  Call, credential_event, credential_error, credential_counter, check_category,
}
use radicalbit_ai_gateway.Limiting.Credential.Checks.Decide.{check_category-Decides}

middle :
    (P : Active → Type 0) (before : List Active) (a : Active) (after : List Active)
    → All P (before ++ (a ∷ after))
    → P a
middle P [] a after (p, _) = p
middle P (b ∷ before) a after (_, h) = middle P before a after h

module _ {S : Type 0} (env : Env) (storage : Storage S) (law : IsBackend storage)
    (self : CredentialLimiter) (call : Call) (category : Category) (cost : ℕ) where
  abbrev Empty : World S → Type 0
  Empty w = (t : ℕ) (key : Text) → counted law.cells t w.store key ≡ 0

  none_full :
      (w : World S) (entries : List Active) (r : Result LimitError (Unit {0}) × World S)
      → Empty w
      → All (λ a. cost ≤ a.item.limit) entries
      → Decision law cost
          (credential_event self category call)
          (counter_of (credential_counter category) call.route_name)
          (credential_error category call)
          w
          entries
          r
      → (r.0 ≡ ok tt) × (r.1.events ≡ w.events)
  none_full w entries r empty fits (accepts _ w' roomy unchanged e _) = (refl, e)
  none_full w entries r empty fits (rejects before a after stats w' roomy full unchanged _ _) =
      let nothing : counted law.cells full.at w.store (key_of a) ≡ 0 = empty full.at (key_of a) in
      absurd
        (omega (arith, full.full, nothing, middle (λ b. cost ≤ b.item.limit) before a after fits))

  -- Where the backend holds no counter, every check passes for a cost that is within each limit of
  -- the category by itself, and queues no event.
  pub empty_store_accepts :
      (w : World S)
      → ((t : ℕ) (key : Text) → counted law.cells t w.store key ≡ 0)
      → All (λ a. cost ≤ a.item.limit) (entries_of category self.entries)
      → ((check_category env storage self category cost call w).0 ≡ ok tt)
        × ((check_category env storage self category cost call w).1.events ≡ w.events)
  empty_store_accepts w empty fits =
      none_full w (entries_of category self.entries)
        (check_category env storage self category cost call w) empty fits
        (check_category-Decides env storage law self call category cost w)
