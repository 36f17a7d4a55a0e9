-- ===== src/Notification/Retry/Attempts.antt =====
-- How often the operation runs, and with which end.
use eurisko_final_proejct.Base.{
  ℕ, zero, suc, ◌+◌, ◌<◌, ◌≤◌, String, none, some, Result, ok, err, ◌≡◌, sym, ap, ◌∙◌, arith, leb,
  inl, inr, Result-cases, Bool-cases,
}
use eurisko_final_proejct.Notification.Retry.{get_delay, loop, execute_with_retry}

module _ {S A : Type 0} (operation : S → Result String A × S) (max_attempts : ℕ)
    (on_retry : ℕ → S → S) (on_dead : String → S → S) (sleep : ℕ → S → S) where
  -- The state for the next attempt, after one more failure.
  abbrev pub next : ℕ → S → S
  next attempt s = sleep (get_delay (suc attempt)) (on_retry (suc attempt) (operation s).1)

  -- The state after `k` more failures.
  abbrev pub after : ℕ → ℕ → S → S
  after attempt zero s = s
  after attempt (suc k) s = after (suc attempt) k (next attempt s)

  -- The next `k` attempts fail.
  abbrev pub AllFail : ℕ → ℕ → S → Type 0
  AllFail attempt zero s = Unit
  AllFail attempt (suc k) s =
      ((message : String) × ((operation s).0 ≡ err message))
      × AllFail (suc attempt) k (next attempt s)

  loop-ok :
      (left attempt : ℕ) (s : S) {a : A}
      → (operation s).0 ≡ ok a
      → loop operation max_attempts on_retry on_dead sleep (suc left) attempt s
        ≡ (some a, (operation s).1)
  unfolding loop
  loop-ok left attempt s done = ground (arith, done)

  loop-again :
      (left attempt : ℕ) (s : S) {m : String}
      → (operation s).0 ≡ err m
      → suc attempt < max_attempts
      → loop operation max_attempts on_retry on_dead sleep (suc left) attempt s
        ≡ loop operation max_attempts on_retry on_dead sleep left (suc attempt) (next attempt s)
  unfolding loop
  loop-again left attempt s failed more = ground (arith, failed)

  loop-last :
      (left attempt : ℕ) (s : S) {m : String}
      → (operation s).0 ≡ err m
      → max_attempts ≤ suc attempt
      → loop operation max_attempts on_retry on_dead sleep (suc left) attempt s
        ≡ (none, on_dead m (operation s).1)
  unfolding loop
  loop-last left attempt s failed over = ground (arith, failed)

  loop-success :
      (k left attempt : ℕ) (s : S) {a : A}
      → attempt + left ≡ max_attempts
      → k < left
      → AllFail attempt k s
      → (operation (after attempt k s)).0 ≡ ok a
      → loop operation max_attempts on_retry on_dead sleep left attempt s
        ≡ (some a, (operation (after attempt k s)).1)
  loop-success k zero attempt s total room failing done = absurd (omega arith)
  loop-success zero (suc left) attempt s total room failing done = loop-ok left attempt s done
  loop-success (suc k) (suc left) attempt s total room ((m, failed), failing) done =
      rw (loop-again left attempt s failed (omega arith)) (
        loop-success k left (suc attempt) (next attempt s) (omega arith) (omega arith) failing done)

  loop-failure :
      (left attempt : ℕ) (s : S) {m : String}
      → attempt + suc left ≡ max_attempts
      → AllFail attempt left s
      → (operation (after attempt left s)).0 ≡ err m
      → loop operation max_attempts on_retry on_dead sleep (suc left) attempt s
        ≡ (none, on_dead m (operation (after attempt left s)).1)
  loop-failure zero attempt s total failing failed = loop-last zero attempt s failed (omega arith)
  loop-failure (suc left) attempt s total ((m, first), failing) failed =
      rw (loop-again (suc left) attempt s first (omega arith))
        (loop-failure left (suc attempt) (next attempt s) (omega arith) failing failed)

  -- An operation that fails `k` times and then answers, `k` less than the limit, runs k + 1 times: the
  -- answer comes back, each failure was reported by `on_retry`, and `on_dead` is not called.
  pub execute_with_retry-success :
      (k : ℕ) (s : S) (a : A)
      → k < max_attempts
      → AllFail 0 k s
      → (operation (after 0 k s)).0 ≡ ok a
      → execute_with_retry operation max_attempts on_retry on_dead sleep s
        ≡ (some a, (operation (after 0 k s)).1)
  execute_with_retry-success k s a room failing done =
      loop-success k max_attempts 0 s (omega arith) room failing done

  -- An operation that fails at each of the `suc left` attempts that the limit allows runs that often: the
  -- answer is null, and `on_dead` is called once, at the end, with the last error.
  pub execute_with_retry-dead :
      (left : ℕ) (s : S) (m : String)
      → suc left ≡ max_attempts
      → AllFail 0 left s
      → (operation (after 0 left s)).0 ≡ err m
      → execute_with_retry operation max_attempts on_retry on_dead sleep s
        ≡ (none, on_dead m (operation (after 0 left s)).1)
  execute_with_retry-dead left s m limit failing failed =
      ap (λ n. (loop operation max_attempts on_retry on_dead sleep n 0 s)) (sym limit)
      ∙ loop-failure left 0 s (omega (arith, limit)) failing failed

  -- What the operation and the callbacks keep, the whole run keeps.
  pub loop-keeps :
      (P : S → Type 0)
      → ((s : S) → P s → P (operation s).1)
      → ((n : ℕ) (s : S) → P s → P (on_retry n s))
      → ((m : String) (s : S) → P s → P (on_dead m s))
      → ((ms : ℕ) (s : S) → P s → P (sleep ms s))
      → (left attempt : ℕ) (s : S) → P s
      → P (loop operation max_attempts on_retry on_dead sleep left attempt s).1
  unfolding loop
  loop-keeps P by_operation by_retry by_dead by_sleep zero attempt s h = h
  loop-keeps P by_operation by_retry by_dead by_sleep (suc left) attempt s h =
      elim (Result-cases (operation s).0) [
        | inr (a, done) ↦ rw (loop-ok left attempt s done) (by_operation s h)
        | inl (m, failed) ↦ elim (Bool-cases (leb max_attempts (suc attempt))) [
          | inl over ↦
              rw (loop-last left attempt s failed (ground arith))
                (by_dead m (operation s).1 (by_operation s h))
          | inr more ↦ rw (loop-again left attempt s failed (ground arith)) (
              loop-keeps P by_operation by_retry by_dead by_sleep left (suc attempt)
                (next attempt s)
                (by_sleep _ _ (by_retry (suc attempt) (operation s).1 (by_operation s h))))
        ]
      ]
