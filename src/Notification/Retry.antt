-- ===== src/Notification/Retry.antt =====
-- apps/notification-service/src/retry/retry.service.ts. The state is what the callbacks change; they do
-- not fail. `S` holds the clock too, if there is one: `sleep` is what happens while the service waits.
pub mod Attempts
use eurisko_final_proejct.Base.{
  ℕ, zero, suc, ◌+◌, String, Option, none, some, Result, ok, err, leb, if◌then◌else◌,
}

-- `delays[attempt - 1] ?? 300_000`
abbrev pub get_delay : ℕ → ℕ
get_delay (suc zero) = 10_000
get_delay (suc (suc zero)) = 60_000
get_delay _ = 300_000

module _ {S A : Type 0} (operation : S → Result String A × S) (max_attempts : ℕ)
    (on_retry : ℕ → S → S) (on_dead : String → S → S) (sleep : ℕ → S → S) where
  -- The loop, after `attempt` failures; `left` is how often the condition of the loop may still hold.
  unfoldable pub loop : ℕ → ℕ → S → Option A × S
  loop zero attempt s = (none, s)
  loop (suc left) attempt s =
      let (r, s') = operation s in
      let tries = suc attempt in
      elim r [
        | ok a ↦ (some a, s')
        | err message ↦
            if leb max_attempts tries
            then (none, on_dead message s')
            else loop left tries (sleep (get_delay tries) (on_retry tries s'))
      ]

  abbrev pub execute_with_retry : S → Option A × S
  execute_with_retry s = loop max_attempts 0 s
