-- ===== src/Events/Buffer/Sections.antt =====
-- events/buffer.py: what the sections under the lock take and what they leave.
use mathlib.Core.List.{append-nil}
use radicalbit_ai_gateway.Prelude.{
  ◌≡◌, refl, sym, ◌∙◌, true, false, List, [], ◌∷◌, ◌++◌, leb, length, Bool-cases, ◌⊎◌, inl, inr,
}
use radicalbit_ai_gateway.Events.Buffer.{
  CeleryBuffer, take_all, start_timer, batch_or_wait, add_locked, take_any, on_timer_locked,
  flush_locked,
}

module _ {A : Type 0} where
  take_any-same :
      (l : List A) (b : CeleryBuffer A)
      → l ≡ b.buffer
      → (take_any l b).0 ++ (take_any l b).1.buffer ≡ l
  unfolding take_any take_all
  take_any-same [] b e = sym e
  take_any-same (x ∷ l) b e = append-nil b.buffer ∙ sym e

  -- A section under the lock keeps the items in order.
  take_any-contents :
      (b : CeleryBuffer A) → (take_any b.buffer b).0 ++ (take_any b.buffer b).1.buffer ≡ b.buffer
  take_any-contents b = take_any-same b.buffer b refl

  pub add_locked-contents :
      (item : A) (b : CeleryBuffer A)
      → (add_locked item b).0 ++ (add_locked item b).1.buffer ≡ b.buffer ++ (item ∷ [])
  unfolding add_locked batch_or_wait take_all start_timer
  add_locked-contents item b =
      elim (Bool-cases (leb b.batch_size (length (b.buffer ++ (item ∷ []))))) [
        | inl full ↦ rw full (append-nil (b.buffer ++ (item ∷ [])))
        | inr room ↦
            rw room (elim (Bool-cases b.timer) [ inl on ↦ rw on refl | inr off ↦ rw off refl ])
      ]

  pub on_timer_locked-contents :
      (b : CeleryBuffer A) → (on_timer_locked b).0 ++ (on_timer_locked b).1.buffer ≡ b.buffer
  unfolding on_timer_locked
  on_timer_locked-contents b = take_any-contents (record b { timer = false })

  pub flush_locked-contents :
      (b : CeleryBuffer A) → (flush_locked b).0 ++ (flush_locked b).1.buffer ≡ b.buffer
  unfolding flush_locked
  flush_locked-contents b = take_any-contents b

  -- What waits has a timer.
  abbrev pub IsArmed : CeleryBuffer A → Type 0
  IsArmed b = (b.buffer ≡ []) ⊎ (b.timer ≡ true)
