-- ===== src/Limiting/Credential/Checks/Decide.antt =====
-- limiting/credential_limiter.py: what the checks decide, and the bound that they keep.
use mathlib.Core.Path.{subst}
use radicalbit_ai_gateway.Prelude.{
  ℕ, ◌≤◌, ◌≡◌, ◌≢◌, refl, sym, ap, inl, inr, false, List, [], ◌∷◌, ◌++◌, Text, arith, All,
  Bool-cases,
}
use radicalbit_ai_gateway.Prelude.Result.{Result}
use radicalbit_ai_gateway.Limiter.Machine.{Env}
use radicalbit_ai_gateway.Limiter.Storage.{Storage, value_of, IsBackend}
use radicalbit_ai_gateway.Limiter.Base.Counting.{counted}
use radicalbit_ai_gateway.Limiting.World.{LimitError, World, credential, continue}
use radicalbit_ai_gateway.Limiting.Room.{Active}
use radicalbit_ai_gateway.Limiting.Room.Verdict.{counter_of}
use radicalbit_ai_gateway.Limiting.Route.Rate.Cap.{counted-falls}
use radicalbit_ai_gateway.Limiting.Entries.Verdict.{
  Roomy, Decision, accepts, rejects, check_entries-Decision,
}
use radicalbit_ai_gateway.Limiting.Entries.{hit_all}
use radicalbit_ai_gateway.Limiting.Entries.Counts.{key_of, hit_all-AtMost}
use radicalbit_ai_gateway.Limiting.Credential.{
  Category, rate, input, output, spending, Entries, entries_of, has_category, CredentialLimiter,
}
use radicalbit_ai_gateway.Limiting.Credential.Checks.{
  Call, identity_of_call, credential_event, credential_error, credential_counter, only_with,
  check_category, check_input_cost, check_input_tokens, check_input_room, check_output_tokens,
  check_budget, hit, check_and_count_request,
}

-- A category that is not there has no entries.
pub missing_category : (c : Category) (m : Entries) → has_category c m ≡ false → entries_of c m ≡ []
unfolding has_category entries_of
missing_category c [] h = refl
missing_category c ((d, l) ∷ m) h = ground (arith, missing_category c m)

module _ {S : Type 0} (env : Env) (storage : Storage S) (law : IsBackend storage)
    (self : CredentialLimiter) (call : Call) where
  -- What a check of a category may come to.
  abbrev pub Decides : Category → ℕ → World S → Result LimitError (Unit {0}) × World S → Type 0
  Decides category cost w r =
      Decision law cost (credential_event self category call)
        (counter_of (credential_counter category) call.route_name) (credential_error category call)
        w (entries_of category self.entries) r

  pub check_category-Decides :
      (category : Category) (cost : ℕ) (w : World S)
      → Decides category cost w (check_category env storage self category cost call w)
  unfolding check_category
  check_category-Decides category cost w =
      check_entries-Decision env storage law cost (credential_event self category call)
        (credential_counter category) call.route_name (credential_error category call)
        (entries_of category self.entries) w

  if_there :
      (category : Category) (cost : ℕ) (w : World S)
      → Decides category cost w (
          only_with
            (has_category category self.entries)
            (check_category env storage self category cost call)
            w)
  unfolding only_with
  if_there category cost w = elim (Bool-cases (has_category category self.entries)) [
    | inl here ↦ rw here (check_category-Decides category cost w)
    | inr missing ↦
        rw (missing, missing_category category self.entries missing)
          (accepts [] w tt (record { later = omega arith; same = λ t j h. refl }) refl refl)
  ]

  -- Every check of a credential decides by all the windows of its category: the input checks by the
  -- tokens of the text or by one token, the output check and the budget check by one unit. A
  -- credential without limits of the category is accepted.
  pub checks-Decide :
      (count_tokens : Text → Text → ℕ) (prompt model_string : Text) (w : World S)
      → Decides input
          (count_tokens prompt model_string)
          w
          (check_input_tokens env storage count_tokens self prompt model_string call w)
        × Decides input 1 w (check_input_room env storage self call w)
        × Decides output 1 w (check_output_tokens env storage self call w)
        × Decides spending 1 w (check_budget env storage self call w)
  unfolding check_input_tokens check_input_room check_input_cost check_output_tokens check_budget
  checks-Decide count_tokens prompt model_string w = (
    if_there input (count_tokens prompt model_string) w,
    if_there input 1 w,
    if_there output 1 w,
    if_there spending 1 w,
  )

  -- The entry's own room, of that of all the entries.
  room_of :
      (cost : ℕ) (w w' : World S) (before : List Active) (a : Active) (after : List Active)
      → All (Roomy law cost w w') (before ++ (a ∷ after))
      → Roomy law cost w w' a
  room_of cost w w' [] a after (r, _) = r
  room_of cost w w' (b ∷ before) a after (_, h) = room_of cost w w' before a after h

  module _ (percentages : List ℕ) (before : List Active) (a : Active) (after : List Active)
      (set : entries_of rate self.entries ≡ before ++ (a ∷ after))
      (other_before : All (λ b. key_of b ≢ key_of a) before)
      (other_after : All (λ b. key_of b ≢ key_of a) after) where
    abbrev pub InLimit : World S → Type 0
    InLimit w = (t : ℕ) → w.clock ≤ t → counted law.cells t w.store (key_of a) ≤ a.item.limit

    after_check :
        (w : World S) (entries : List Active) (r : Result LimitError (Unit {0}) × World S)
        → entries ≡ before ++ (a ∷ after)
        → InLimit w
        → Decision law 1
            (credential_event self rate call)
            (counter_of (credential_counter rate) call.route_name)
            (credential_error rate call)
            w
            entries
            r
        → InLimit
            (continue r.0
              (λ _. hit env storage percentages self rate 1 (identity_of_call self call))
              r.1).1
    unfolding hit
    after_check w entries r split h (accepts _ w' roomy unchanged _ _) =
        let own =
          room_of 1 w w' before a after (subst (λ l. All (Roomy law 1 w w') l) split roomy) in
        subst
          (λ l.
            InLimit
              (hit_all env storage percentages credential 1 (identity_of_call self call) l w').1)
          (sym set)
          (hit_all-AtMost env storage law percentages credential 1 (identity_of_call self call)
            before a after a.item.limit w' other_before other_after
            λ t p.
              let same = ap value_of (unchanged.same t (key_of a) p) in
              let falls =
                counted-falls own.at t (law.cells w.store (key_of a)) (omega (arith, own.ended)) in
              omega (arith, same, falls, own.room))
    after_check w entries r split h (rejects _ b _ stats w' roomy full unchanged _ _) = λ t p.
        let same = ap value_of (unchanged.same t (key_of a) p) in
        omega (arith, same, h t (omega (arith, unchanged.later)))

    pub check_and_count_request-InLimit :
        (w : World S)
        → InLimit w
        → InLimit (check_and_count_request env storage percentages self call w).1
    unfolding check_and_count_request only_with
    check_and_count_request-InLimit w h = elim (Bool-cases (has_category rate self.entries)) [
      | inl here ↦ rw here (
          after_check w (entries_of rate self.entries)
            (check_category env storage self rate 1 call w) set h (check_category-Decides rate 1 w))
      | inr missing ↦ rw missing h
    ]

    -- A request that a credential's rate limits check and count leaves the counter of any of its
    -- windows within its limit if it was so before and no other of the windows has its key,
    -- whichever window refused the request and whether or not one did.
    pub rates_capped :
        (w : World S)
        → counted law.cells w.clock w.store (key_of a) ≤ a.item.limit
        → counted law.cells
            (check_and_count_request env storage percentages self call w).1.clock
            (check_and_count_request env storage percentages self call w).1.store
            (key_of a)
          ≤ a.item.limit
    rates_capped w h =
        let v = (check_and_count_request env storage percentages self call w).1 in
        check_and_count_request-InLimit w
          (λ t p.
            let falls = counted-falls w.clock t (law.cells w.store (key_of a)) p in
            omega (arith, falls, h))
          v.clock (omega arith)
