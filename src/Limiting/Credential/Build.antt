-- ===== src/Limiting/Credential/Build.antt =====
-- limiting/credential_limiter.py, the constructor: the windows of each category.
use mathlib.Core.List.{append-nil, append_assoc}
use radicalbit_ai_gateway.Prelude.{
  ◌≡◌, refl, sym, ap, ◌∙◌, inl, inr, true, false, List, [], ◌∷◌, ◌++◌, Text, arith, if◌then◌else◌,
  Bool-cases,
}
use radicalbit_ai_gateway.Prelude.Result.{Result, ok, ◌>>=◌, >>=-eq-ok}
use radicalbit_ai_gateway.Limiter.Window.{WindowError}
use radicalbit_ai_gateway.Limiting.Floats.{Floats}
use radicalbit_ai_gateway.Limiting.Room.{Active}
use radicalbit_ai_gateway.Limiting.Credential.{
  Category, rate, input, output, spending, same_category, Entries, entries_of, append_entry,
  CredentialLimiter, CredentialLimitOut, build_entry, add_entries, credential_limiter,
}

same_category_refl : (c : Category) → same_category c c ≡ true
unfolding same_category
same_category_refl rate = refl
same_category_refl input = refl
same_category_refl output = refl
same_category_refl spending = refl

same_category_eq : (c d : Category) → same_category c d ≡ true → c ≡ d
unfolding same_category
same_category_eq rate rate h = refl
same_category_eq rate input h = cc
same_category_eq rate output h = cc
same_category_eq rate spending h = cc
same_category_eq input rate h = cc
same_category_eq input input h = refl
same_category_eq input output h = cc
same_category_eq input spending h = cc
same_category_eq output rate h = cc
same_category_eq output input h = cc
same_category_eq output output h = refl
same_category_eq output spending h = cc
same_category_eq spending rate h = cc
same_category_eq spending input h = cc
same_category_eq spending output h = cc
same_category_eq spending spending h = refl

entries_of-append_entry :
    (c d : Category) (a : Active) (m : Entries)
    → entries_of c (append_entry d a m)
      ≡ (if same_category d c then entries_of c m ++ (a ∷ []) else entries_of c m)
unfolding entries_of append_entry
entries_of-append_entry c d a [] = refl
entries_of-append_entry c d a ((e, l) ∷ m) = ground (
  arith,
  same_category_eq e d,
  same_category_eq e c,
  same_category_eq d c,
  same_category_refl c,
  entries_of-append_entry c d a m,
)

module _ (F : Floats) (credential_uuid : Text) where
  abbrev pub of_category : Category → List (CredentialLimitOut F) → List (CredentialLimitOut F)
  of_category c [] = []
  of_category c (limit ∷ limits) =
      if same_category limit.category c then limit ∷ of_category c limits else of_category c limits

  -- Each limit's entry, in order.
  abbrev pub build_all : List (CredentialLimitOut F) → Result WindowError (List Active)
  build_all [] = ok []
  build_all (limit ∷ limits) = build_entry F credential_uuid limit >>= λ entry.
      build_all limits >>= λ rest. ok (entry ∷ rest)

  add_entries-of_category :
      (c : Category) (limits : List (CredentialLimitOut F)) (m out : Entries)
      → add_entries F credential_uuid limits m ≡ ok out
      → (l : List Active) × (build_all (of_category c limits) ≡ ok l)
        × (entries_of c out ≡ entries_of c m ++ l)
  unfolding add_entries
  add_entries-of_category c [] m out h =
      let same : m ≡ out = cc in
      ([], refl, ap (entries_of c) (sym same) ∙ sym (append-nil (entries_of c m)))
  add_entries-of_category c (limit ∷ limits) m out h =
      let d = limit.category in
      let (entry, built, rest) =
        >>=-eq-ok (build_entry F credential_uuid limit)
          (λ entry. add_entries F credential_uuid limits (append_entry d entry m)) h in
      let (l, all, e) = add_entries-of_category c limits (append_entry d entry m) out rest in
      let step = entries_of-append_entry c d entry m in
      let taken : same_category d c ≡ true
          → (if same_category d c then entries_of c m ++ (entry ∷ []) else entries_of c m)
            ≡ entries_of c m ++ (entry ∷ []) =
        λ same. rw same refl in
      let left_out : same_category d c ≡ false
          → (if same_category d c then entries_of c m ++ (entry ∷ []) else entries_of c m)
            ≡ entries_of c m =
        λ other. rw other refl in
      elim (Bool-cases (same_category d c)) [
        | inl same ↦ (
          entry ∷ l,
          rw (same, built, all) refl,
          e ∙ (ap (λ x. x ++ l) (step ∙ taken same) ∙ append_assoc (entries_of c m) (entry ∷ []) l),
        )
        | inr other ↦ (l, rw (other, all) refl, e ∙ ap (λ x. x ++ l) (step ∙ left_out other))
      ]

  -- A limiter that is built holds in each category an entry for each limit of that category, in the
  -- order of the limits.
  pub credential_limiter-of_category :
      (credential_name : Text) (limits : List (CredentialLimitOut F)) (self : CredentialLimiter)
      → credential_limiter F credential_uuid credential_name limits ≡ ok self
      → (c : Category) → build_all (of_category c limits) ≡ ok (entries_of c self.entries)
  unfolding credential_limiter entries_of
  credential_limiter-of_category credential_name limits self h c =
      let named : Entries → CredentialLimiter = λ entries. record {
        credential_uuid = credential_uuid;
        credential_name = credential_name;
        entries = entries;
      } in
      let (entries, added, e) =
        >>=-eq-ok (add_entries F credential_uuid limits []) (λ entries. ok (named entries)) h in
      let (l, all, own) = add_entries-of_category c limits [] entries added in
      let same : named entries ≡ self = cc in
      let here : entries_of c self.entries ≡ l =
        ap (λ s. entries_of c s.entries) (sym same) ∙ own in
      all ∙ ap ok (sym here)
