-- ===== src/Events/Buffer.antt =====
-- events/buffer.py: `CeleryBuffer`, which batches items for a Celery task. Several threads use it:
-- a method is split where it holds the lock, and what it does under the lock is one function here.
-- The broker is a parameter: whether the n-th attempt to send succeeds.
pub mod Sections
pub mod Sequential
pub mod Threads
use radicalbit_ai_gateway.Prelude.{
  ℕ, suc, ◌+◌, Bool, true, false, List, [], ◌∷◌, ◌++◌, leb, length, if◌then◌else◌,
}

pub record CeleryBuffer (A : Type 0) : Type 0 where
  pub buffer : List A
  -- whether `_timer` is set
  pub timer : Bool
  pub closed : Bool
  pub batch_size : ℕ

-- A section under the lock: the items to send, and the buffer after it.
abbrev pub BufferOp : Type 0 → Type 0
BufferOp A = CeleryBuffer A → List A × CeleryBuffer A

module _ {A : Type 0} where
  -- `_take_all_unlocked`
  unfoldable pub take_all : BufferOp A
  take_all b = (b.buffer, record b { buffer = []; timer = false })

  -- `_start_timer_unlocked`
  unfoldable pub start_timer : CeleryBuffer A → CeleryBuffer A
  start_timer b = record b { timer = true }

  -- `if len(self._buffer) >= self._batch_size: … elif self._timer is None: …`
  batch_or_wait : BufferOp A
  unfolding take_all start_timer
  batch_or_wait b =
      if leb b.batch_size (length b.buffer)
      then take_all b
      else if b.timer
      then ([], b)
      else ([], start_timer b)

  -- What `add` does under the lock, with the items to send.
  unfoldable pub add_locked : A → BufferOp A
  unfolding batch_or_wait
  add_locked item b = batch_or_wait (record b { buffer = b.buffer ++ (item ∷ []) })

  take_any : List A → BufferOp A
  unfolding take_all
  take_any [] b = ([], b)
  take_any (item ∷ items) b = take_all b

  -- What `_on_timer` does under the lock.
  unfoldable pub on_timer_locked : BufferOp A
  unfolding take_any
  on_timer_locked b = take_any b.buffer (record b { timer = false })

  -- What `flush` does under the lock.
  unfoldable pub flush_locked : BufferOp A
  unfolding take_any
  flush_locked b = take_any b.buffer b

  -- `self._buffer[:0] = list(items)`, after a failure to send.
  unfoldable pub put_back : List A → CeleryBuffer A → CeleryBuffer A
  put_back items b = record b { buffer = items ++ b.buffer }
