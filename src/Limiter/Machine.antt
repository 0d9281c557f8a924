-- ===== src/Limiter/Machine.antt =====
-- What the limiters' operations run on: the backend's data, the wall clock in whole seconds
-- (`time.time_ns() // 1_000_000_000` and `int(time.time())`) and the supply of `uuid.uuid4()`.
-- An operation that reads the clock twice may see two times. `Env` says how many seconds pass
-- before each reading, so that a statement for every `Env` holds whatever the delays are; the clock
-- is not set back. `uuid4` names the identifiers in the order in which they are drawn.
use radicalbit_ai_gateway.Prelude.{ℕ, ◌+◌, Text}

pub record Env : Type 0 where
  pub delay : ℕ → ℕ
  pub uuid4 : ℕ → Text

pub record Machine (S : Type 0) : Type 0 where
  pub store : S
  pub clock : ℕ
  pub reads : ℕ
  pub issued : ℕ

-- A coroutine that runs to its end: nothing else runs on the same backend meanwhile.
abbrev pub Op : Type 0 → Type 0 → Type 0
Op S A = Machine S → A × Machine S

infixl 10 ◌>>=◌ ◌>>◌
abbrev pub ◌>>=◌ : {S A B : Type 0} → Op S A → (A → Op S B) → Op S B
◌>>=◌ op f m = let (a, m') = op m in f a m'

abbrev pub ◌>>◌ : {S B : Type 0} → Op S (Unit {0}) → Op S B → Op S B
op >> next = op >>= λ _. next

abbrev pub pure : {S A : Type 0} → A → Op S A
pure a m = (a, m)

unfoldable pub read_clock : {S : Type 0} → Env → Op S ℕ
read_clock env m =
    let now = m.clock + env.delay m.reads in (now, record m { clock = now; reads = m.reads + 1 })

unfoldable pub draw_uuid : {S : Type 0} → Env → Op S Text
draw_uuid env m = (env.uuid4 m.issued, record m { issued = m.issued + 1 })

abbrev pub get_store : {S : Type 0} → Op S S
get_store m = (m.store, m)

abbrev pub put_store : {S : Type 0} → S → Op S (Unit {0})
put_store s m = (tt, record m { store = s })
