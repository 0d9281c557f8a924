-- ===== src/Events/Buffer/Sequential.antt =====
-- events/buffer.py: the methods when they run one after the other.
use mathlib.Core.List.{append_assoc}
use radicalbit_ai_gateway.Prelude.{
  ℕ, suc, ◌≡◌, refl, sym, ap, ◌∙◌, Bool, true, false, List, [], ◌∷◌, ◌++◌, if◌then◌else◌,
  Bool-cases, inl, inr,
}
use radicalbit_ai_gateway.Events.Buffer.Sections.{
  add_locked-contents, on_timer_locked-contents, flush_locked-contents,
}
use radicalbit_ai_gateway.Events.Buffer.{
  CeleryBuffer, BufferOp, add_locked, on_timer_locked, flush_locked, put_back,
}

-- The buffer, the items that the broker has taken, in their order, and the number of attempts.
pub record Delivery (A : Type 0) : Type 0 where
  pub state : CeleryBuffer A
  pub sent : List A
  pub attempts : ℕ

if_same : {A : Type 0} (c : Bool) (x : A) → (if c then x else x) ≡ x
if_same true x = refl
if_same false x = refl

module _ {A : Type 0} (broker : ℕ → Bool) where
  attempt : Bool → List A → Delivery A → Delivery A
  unfolding put_back
  attempt true items d = record d { sent = d.sent ++ items; attempts = suc d.attempts }
  attempt false items d = record d { state = put_back items d.state; attempts = suc d.attempts }

  -- `_send_batch`
  unfoldable pub send_batch : List A → Delivery A → Delivery A
  unfolding attempt
  send_batch [] d = d
  send_batch (item ∷ items) d = attempt (broker d.attempts) (item ∷ items) d

  -- A section under the lock, and the sending of what it took.
  then_send : BufferOp A → Delivery A → Delivery A
  then_send op d = let (items, b) = op d.state in send_batch items (record d { state = b })

  unless_closed : (Delivery A → Delivery A) → Delivery A → Delivery A
  unless_closed body d = if d.state.closed then d else body d

  unfoldable pub add : A → Delivery A → Delivery A
  unfolding unless_closed then_send add_locked
  add item = unless_closed (then_send (add_locked item))

  unfoldable pub on_timer : Delivery A → Delivery A
  unfolding unless_closed then_send on_timer_locked
  on_timer = unless_closed (then_send on_timer_locked)

  unfoldable pub flush : Delivery A → Delivery A
  unfolding then_send flush_locked
  flush = then_send flush_locked

  unfoldable pub close : Delivery A → Delivery A
  unfolding flush
  close d = flush (record d { state = record d.state { closed = true } })

  -- What has been added and not dropped, in order.
  abbrev pub contents : Delivery A → List A
  contents d = d.sent ++ d.state.buffer

  send_batch-contents :
      (items : List A) (d : Delivery A)
      → contents (send_batch items d) ≡ d.sent ++ (items ++ d.state.buffer)
  unfolding send_batch put_back
  send_batch-contents [] d = refl
  send_batch-contents (item ∷ items) d = elim (Bool-cases (broker d.attempts)) [
    | inl taken ↦ rw taken (append_assoc d.sent (item ∷ items) d.state.buffer)
    | inr failed ↦ rw failed refl
  ]

  then_send-contents :
      (op : BufferOp A) (d : Delivery A) {l : List A}
      → (op d.state).0 ++ (op d.state).1.buffer ≡ l
      → contents (then_send op d) ≡ d.sent ++ l
  unfolding then_send
  then_send-contents op d e =
      send_batch-contents (op d.state).0 (record d { state = (op d.state).1 })
      ∙ ap (λ x. d.sent ++ x) e

  either-contents :
      (shut : Bool) (c d : Delivery A) {l : List A}
      → contents d ≡ l
      → contents (if shut then c else d) ≡ (if shut then contents c else l)
  either-contents true c d e = refl
  either-contents false c d e = e

  -- Of methods that run one after the other none loses, repeats or reorders an item, whether or not
  -- the broker takes the batches: what it has taken and what is left in the buffer are the items
  -- before, with the added one behind them unless the buffer was closed.
  pub calls_in_order :
      (item : A) (d : Delivery A)
      → (contents (add item d) ≡ (if d.state.closed then contents d else contents d ++ (item ∷ [])))
        × (contents (on_timer d) ≡ contents d)
        × (contents (flush d) ≡ contents d)
        × (contents (close d) ≡ contents d)
  unfolding add on_timer flush close unless_closed
  calls_in_order item d = (
    either-contents d.state.closed d (then_send (add_locked item) d) (
        then_send-contents (add_locked item) d (add_locked-contents item d.state)
        ∙ sym (append_assoc d.sent d.state.buffer (item ∷ []))),
    either-contents d.state.closed d (then_send on_timer_locked d)
          (then_send-contents on_timer_locked d (on_timer_locked-contents d.state))
        ∙ if_same d.state.closed (contents d),
    then_send-contents flush_locked d (flush_locked-contents d.state),
    then_send-contents flush_locked (record d { state = record d.state { closed = true } })
        (flush_locked-contents (record d.state { closed = true })),
  )
