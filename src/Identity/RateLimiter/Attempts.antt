-- ===== src/Identity/RateLimiter/Attempts.antt =====
-- login-rate-limiter.service.ts: when an address is blocked.
use versi_go.Prelude.{
  ℕ, zero, suc, ◌+◌, ◌<◌, ◌≡◌, ◌≢◌, ◌⊎◌, inl, inr, Bool-cases, refl, sym, ap, ◌∙◌, Text, eq_text,
  eq_text_iff, eq_text_refl, false, if◌then◌else◌, leb, ◌==◌, arith,
}
use versi_go.Identity.RateLimiter.{
  RateScope, redis_key, Redis, after_incr, record_attempt, is_blocked, reset_attempts,
}

-- A scope and an address have a key of their own.
redis_key-injective :
    (scope other : RateScope) (ip ip' : Text)
    → redis_key scope ip ≡ redis_key other ip'
    → (scope ≡ other) × (ip ≡ ip')
redis_key-injective scope other ip ip' e = ground arith

module _ (redis : Redis) (max_attempts window_ms : ℕ) where
  open redis use {Store, counter}

  -- `n` failed attempts from an address, one after the other.
  abbrev pub attempts : ℕ → Text → RateScope → Store → Store
  attempts zero ip scope s = s
  attempts (suc n) ip scope s =
      attempts n ip scope (record_attempt redis max_attempts window_ms ip scope s).1

module _ (redis : Redis) (max_attempts window_ms : ℕ) (open_window : 0 < window_ms) where
  open redis use {Store, counter}

  is_blocked_lem :
      (ip : Text) (scope : RateScope) (s : Store)
      → 0 < max_attempts
      → is_blocked redis max_attempts window_ms ip scope s
        ≡ leb max_attempts (counter (redis_key scope ip) s)
  unfolding is_blocked
  is_blocked_lem ip scope s positive = ground (arith, redis.get_reads (redis_key scope ip) s)

  same_count :
      (key k : Text) (s : Store)
      → (if eq_text key k then suc (counter k s) else counter key s)
        ≡ (if eq_text key k then suc (counter key s) else counter key s)
  same_count key k s = elim (Bool-cases (eq_text key k)) [
    | inl same ↦ rw same (ap (λ x. suc (counter x s)) (sym ((eq_text_iff key k).0 same)))
    | inr other ↦ rw other refl
  ]

  record_lem :
      (ip : Text) (scope : RateScope) (s : Store) (key : Text)
      → counter key (record_attempt redis max_attempts window_ms ip scope s).1
        ≡ (if eq_text key (redis_key scope ip) then suc (counter key s) else counter key s)
  unfolding record_attempt after_incr
  record_lem ip scope s key =
      let k = redis_key scope ip in
      let (counted, answered, counts) = redis.incr_counts k s in
      let exists : 0 < counter k counted = ground (arith, counts k, eq_text_refl k) in
      let (expiring, set, keeps) = redis.pexpire_keeps k window_ms counted exists open_window in
      elim (Bool-cases (suc (counter k s) == 1)) [
        | inl first ↦ rw answered (rw (first, set) (keeps key ∙ counts key ∙ same_count key k s))
        | inr later ↦ rw answered (rw later (counts key ∙ same_count key k s))
      ]

  attempts_lem :
      (n : ℕ) (ip : Text) (scope : RateScope) (s : Store) (key : Text)
      → counter key (attempts redis max_attempts window_ms n ip scope s)
        ≡ (if eq_text key (redis_key scope ip) then n + counter key s else counter key s)
  attempts_lem zero ip scope s key = ground arith
  attempts_lem (suc n) ip scope s key =
      let next = (record_attempt redis max_attempts window_ms ip scope s).1 in
      ground (arith, attempts_lem n ip scope next key, record_lem ip scope s key)

  reset_lem :
      (ip : Text) (scope : RateScope) (s : Store)
      → counter (redis_key scope ip) (reset_attempts redis max_attempts window_ms ip scope s) ≡ 0
  unfolding reset_attempts
  reset_lem ip scope s =
      let (cleared, answered, clears) = redis.del_clears (redis_key scope ip) s in
      rw answered (clears (redis_key scope ip) ∙ rw (eq_text_refl (redis_key scope ip)) refl)

  -- While Redis answers within one window, `n` failed attempts after a reset block an address for a
  -- scope exactly when `n` has reached the maximum. (Conditions: the window
  -- and the maximum are not 0.)
  pub attempts-is_blocked :
      (n : ℕ) (ip : Text) (scope : RateScope) (s : Store)
      → 0 < max_attempts
      → is_blocked redis max_attempts window_ms ip scope (
          attempts redis max_attempts window_ms n ip scope
            (reset_attempts redis max_attempts window_ms ip scope s))
        ≡ leb max_attempts n
  attempts-is_blocked n ip scope s positive =
      let cleared = reset_attempts redis max_attempts window_ms ip scope s in
      let count : counter (redis_key scope ip)
            (attempts redis max_attempts window_ms n ip scope cleared)
          ≡ n =
        ground (
          arith,
          attempts_lem n ip scope cleared (redis_key scope ip),
          eq_text_refl (redis_key scope ip),
          reset_lem ip scope s,
        ) in
      is_blocked_lem ip scope (attempts redis max_attempts window_ms n ip scope cleared) positive
      ∙ ap (leb max_attempts) count

  -- Failed attempts from an address for a scope never change whether another address, or the same
  -- address for another scope, is blocked. (Conditions: Redis answers within one window,
  -- and the window and the maximum are not 0.)
  pub attempts-separate :
      (n : ℕ) (ip other_ip : Text) (scope other : RateScope) (s : Store)
      → 0 < max_attempts
      → (scope ≢ other) ⊎ (ip ≢ other_ip)
      → is_blocked redis max_attempts window_ms other_ip other
          (attempts redis max_attempts window_ms n ip scope s)
        ≡ is_blocked redis max_attempts window_ms other_ip other s
  attempts-separate n ip other_ip scope other s positive differ =
      let key = redis_key other other_ip in
      let apart : eq_text key (redis_key scope ip) ≡ false =
        elim (Bool-cases (eq_text key (redis_key scope ip))) [
          | inr distinct ↦ distinct
          | inl same ↦
              let (scopes, ips) =
                redis_key-injective other scope other_ip ip
                  ((eq_text_iff key (redis_key scope ip)).0 same) in
              elim differ [
                | inl not_scope ↦ absurd (not_scope (sym scopes))
                | inr not_ip ↦ absurd (not_ip (sym ips))
              ]
        ] in
      is_blocked_lem other_ip other (attempts redis max_attempts window_ms n ip scope s) positive
      ∙ ap (leb max_attempts) (attempts_lem n ip scope s key ∙ rw apart refl)
      ∙ sym (is_blocked_lem other_ip other s positive)
