-- ===== src/Events/Buffer/Threads.antt =====
-- events/buffer.py: the methods on several threads, whose sections under the lock and whose sends
-- come in any order.
use radicalbit_ai_gateway.Prelude.{
  ℕ, suc, ◌+◌, ◌≡◌, sym, ap, ◌∙◌, true, false, List, [], ◌∷◌, ◌++◌, arith,
}
use radicalbit_ai_gateway.Events.Buffer.Sections.{
  add_locked-contents, on_timer_locked-contents, flush_locked-contents,
}
use radicalbit_ai_gateway.Events.Buffer.{
  CeleryBuffer, add_locked, on_timer_locked, flush_locked, put_back,
}

-- The buffer, the items of calls of `add` that have found it open and wait for the lock, the number of
-- calls of `_on_timer` that do so, the batches that were taken and are not sent, and the batches that
-- the broker has taken.
pub record System (A : Type 0) : Type 0 where
  pub state : CeleryBuffer A
  pub entering : List A
  pub firing : ℕ
  pub in_flight : List (List A)
  pub sent : List (List A)

-- A batch is sent only if it holds an item.
abbrev pub launch : {A : Type 0} → List A → List (List A) → List (List A)
launch [] batches = batches
launch (item ∷ items) batches = (item ∷ items) ∷ batches

module _ {A : Type 0} where
  -- After a section under the lock.
  abbrev pub locked : System A → List A × CeleryBuffer A → System A
  locked s r = record s { state = r.1; in_flight = launch r.0 s.in_flight }

  -- The moves of the threads, with the items of calls of `add` that find the buffer open. A timer's
  -- callback may come late, after the timer was cancelled, and the buffer may be closed between its
  -- reading of `_closed` and the lock.
  pub data Step (s : System A) : List A → System A → Type 0 where
    enter :
        (item : A)
        → s.state.closed ≡ false
        → Step s (item ∷ []) (record s { entering = item ∷ s.entering })
    reject : (item : A) → s.state.closed ≡ true → Step s [] s
    append :
        (before : List A) (item : A) (after : List A)
        → s.entering ≡ before ++ (item ∷ after)
        → Step s [] (locked (record s { entering = before ++ after }) (add_locked item s.state))
    wake : s.state.closed ≡ false → Step s [] (record s { firing = suc s.firing })
    ignore : s.state.closed ≡ true → Step s [] s
    fire :
        (others : ℕ)
        → s.firing ≡ suc others
        → Step s [] (locked (record s { firing = others }) (on_timer_locked s.state))
    flush : Step s [] (locked s (flush_locked s.state))
    shut : Step s [] (record s { state = record s.state { closed = true } })
    deliver :
        (before : List (List A)) (batch : List A) (after : List (List A))
        → s.in_flight ≡ before ++ (batch ∷ after)
        → Step s [] (record s { in_flight = before ++ after; sent = batch ∷ s.sent })
    fail :
        (before : List (List A)) (batch : List A) (after : List (List A))
        → s.in_flight ≡ before ++ (batch ∷ after)
        → Step s [] (record s { in_flight = before ++ after; state = put_back batch s.state })

  pub data Run (s : System A) : List A → System A → Type 0 where
    start : Run s [] s
    next : {t u : System A} {l m : List A} → Run s l t → Step t m u → Run s (m ++ l) u

  module _ (weight : A → ℕ) where
    abbrev pub total : List A → ℕ
    total [] = 0
    total (x ∷ l) = weight x + total l

    abbrev pub totals : List (List A) → ℕ
    totals [] = 0
    totals (l ∷ batches) = total l + totals batches

    -- All that the system holds or has sent.
    abbrev pub held : System A → ℕ
    held s = total s.entering + total s.state.buffer + totals s.in_flight + totals s.sent

    total-append : (l m : List A) → total (l ++ m) ≡ total l + total m
    total-append [] m = omega arith
    total-append (x ∷ l) m = omega (arith, total-append l m)

    totals-append : (l m : List (List A)) → totals (l ++ m) ≡ totals l + totals m
    totals-append [] m = omega arith
    totals-append (x ∷ l) m = omega (arith, totals-append l m)

    totals-launch : (l : List A) (m : List (List A)) → totals (launch l m) ≡ total l + totals m
    totals-launch [] m = omega arith
    totals-launch (x ∷ l) m = omega arith

    total-section : (l m n : List A) → l ++ m ≡ n → total l + total m ≡ total n
    total-section l m n e = sym (total-append l m) ∙ ap total e

    Step-held : {s t : System A} {l : List A} → Step s l t → held t ≡ held s + total l
    unfolding put_back
    Step-held {s} (enter item e) = omega arith
    Step-held {s} (reject item e) = omega arith
    Step-held {s} (append before item after e) =
        let r = add_locked item s.state in
        let here = ap total e in
        omega (
          arith,
          here,
          total-append before (item ∷ after),
          total-append before after,
          totals-launch r.0 s.in_flight,
          total-section r.0 r.1.buffer (s.state.buffer ++ (item ∷ []))
              (add_locked-contents item s.state),
          total-append s.state.buffer (item ∷ []),
        )
    Step-held {s} (wake e) = omega arith
    Step-held {s} (ignore e) = omega arith
    Step-held {s} (fire others e) =
        let r = on_timer_locked s.state in
        omega (
          arith,
          totals-launch r.0 s.in_flight,
          total-section r.0 r.1.buffer s.state.buffer (on_timer_locked-contents s.state),
        )
    Step-held {s} flush =
        let r = flush_locked s.state in
        omega (
          arith,
          totals-launch r.0 s.in_flight,
          total-section r.0 r.1.buffer s.state.buffer (flush_locked-contents s.state),
        )
    Step-held {s} shut = omega arith
    Step-held {s} (deliver before batch after e) =
        let here = ap totals e in
        omega (arith, here, totals-append before (batch ∷ after), totals-append before after)
    Step-held {s} (fail before batch after e) =
        let here = ap totals e in
        omega (
          arith,
          here,
          totals-append before (batch ∷ after),
          totals-append before after,
          total-append batch s.state.buffer,
        )

    -- In any order of the threads' moves, with any failures to send, an item that found the buffer
    -- open is once in a call of `add`, in the buffer, in a batch under way or in a batch that was
    -- sent, whatever the items are counted by.
    pub nothing_lost : {s t : System A} {l : List A} → Run s l t → held t ≡ held s + total l
    nothing_lost start = omega arith
    nothing_lost (next {l = l} {m = m} r step) =
        omega (arith, nothing_lost r, Step-held step, total-append m l)
