-- ===== src/Connectors/Retries.antt =====
-- What `_retry` promises.
use mmp_meridian.Prelude.{
  ℕ, zero, suc, ◌+◌, ◌^◌, ◌≤◌, ◌<◌, ◌≡◌, refl, sym, ap, ◌∙◌, List, [], ◌∷◌, arith,
}
use native.Mathlib.Nat.{two-pow-succ}
use mmp_meridian.Connectors.Monad.{
  Reply, answered, failed, retryable, authentication, order_not_found, not_supported, refused,
  broken, Call, Adapter, once, sleep,
}
use mmp_meridian.Connectors.Ccxt.{attempts, retry, max_retries}

abbrev pub total : List ℕ → ℕ
total [] = 0
total (n ∷ ns) = n + total ns

module _ {R A : Type 0} (c : Call R) (reply : ℕ → Reply A) where
  -- After `made` further calls: all but the last of the calls failed with a retryable exception, the
  -- last one's reply is the result, and it is retryable only if there was no attempt left.
  pub record Retried (attempt left : ℕ) (a : Adapter R) (r : Reply A) (a' : Adapter R)
      : Type 0 where
    pub made : ℕ
    made-le-left : made ≤ left
    pub count_lem : a'.count ≡ a.count + made + 1
    pub result : r ≡ reply (a.count + made)
    pub earlier : (i : ℕ) → i < made → reply (a.count + i) ≡ failed retryable
    pub gives_up : r ≡ failed retryable → made ≡ left
    pub slept_lem : total a'.slept + 2 ^ attempt ≡ total a.slept + 2 ^ (attempt + made)

  at_once :
      (attempt left : ℕ) (a : Adapter R) (r : Reply A)
      → reply a.count ≡ r
      → (r ≡ failed retryable → 0 ≡ left)
      → Retried attempt left a r (once c reply a).1
  at_once attempt left a r e h = record {
    made = 0;
    made-le-left = omega arith;
    count_lem = omega arith;
    result = sym e ∙ ap reply (omega arith);
    earlier = λ i k. absurd (omega arith);
    gives_up = h;
    slept_lem = ap (λ n. total a.slept + 2 ^ n) (omega arith);
  }

  abbrev slept : ℕ → Adapter R → Adapter R
  slept n a = (sleep n (once c reply a).1).1

  again :
      (attempt left : ℕ) (a : Adapter R) (r : Reply A) (a' : Adapter R)
      → reply a.count ≡ failed retryable
      → Retried (suc attempt) left (slept (2 ^ attempt) a) r a'
      → Retried attempt (suc left) a r a'
  again attempt left a r a' e v = record {
    made = suc v.made;
    made-le-left = omega (arith, v.made-le-left);
    count_lem = omega (arith, v.count_lem);
    result = v.result ∙ ap reply (omega arith);
    earlier = λ i h.
        elim i as (λ i. i < suc v.made → reply (a.count + i) ≡ failed retryable) [
          | zero ↦ λ _. ap reply (omega arith) ∙ e
          | suc j ↦ λ k. ap reply (omega arith) ∙ v.earlier j (omega arith)
        ]
          h;
    gives_up = λ h. ap suc (v.gives_up h);
    slept_lem = omega (
      arith,
      v.slept_lem,
      two-pow-succ attempt,
      ap (λ n. 2 ^ n) {x = suc attempt + v.made} {y = attempt + suc v.made} (omega arith),
    );
  }

  -- What follows the reply to an attempt that is not the last.
  abbrev after : ℕ → ℕ → Adapter R → Reply A → Reply A × Adapter R
  after attempt left a r = elim r [
    | answered x ↦ (answered x, (once c reply a).1)
    | failed e ↦ elim e [
      | retryable ↦ attempts (suc attempt) left (once c reply) (slept (2 ^ attempt) a)
      | refusal ↦ (failed refusal, (once c reply a).1)
    ]
  ]

  step :
      (attempt left : ℕ) (a : Adapter R) (r : Reply A)
      → reply a.count ≡ r
      → (let (r', a') = attempts (suc attempt) left (once c reply) (slept (2 ^ attempt) a) in
          Retried (suc attempt) left (slept (2 ^ attempt) a) r' a')
      → let (r', a') = after attempt left a r in Retried attempt (suc left) a r' a'
  step attempt left a (answered x) e v = at_once attempt (suc left) a _ e λ h. absurd (ground arith)
  step attempt left a (failed retryable) e v = again attempt left a _ _ e v
  step attempt left a (failed authentication) e v =
      at_once attempt (suc left) a _ e λ h. absurd (ground arith)
  step attempt left a (failed order_not_found) e v =
      at_once attempt (suc left) a _ e λ h. absurd (ground arith)
  step attempt left a (failed not_supported) e v =
      at_once attempt (suc left) a _ e λ h. absurd (ground arith)
  step attempt left a (failed refused) e v =
      at_once attempt (suc left) a _ e λ h. absurd (ground arith)
  step attempt left a (failed broken) e v =
      at_once attempt (suc left) a _ e λ h. absurd (ground arith)

  attempts_lem :
      (attempt left : ℕ) (a : Adapter R)
      → let (r, a') = attempts attempt left (once c reply) a in Retried attempt left a r a'
  unfolding attempts
  attempts_lem attempt zero a = at_once attempt 0 a (reply a.count) refl λ h. refl
  attempts_lem attempt (suc left) a =
      step attempt left a (reply a.count) refl
        (attempts_lem (suc attempt) left (slept (2 ^ attempt) a))

  -- A call of `_retry` ends after at most four calls of ccxt: all but the last of them failed with a
  -- retryable exception, the last one's reply is the result, and that is a retryable exception only
  -- after the fourth call. Before the second call it sleeps a second, and before each further call twice
  -- as long as before.
  pub retry_lem :
      (a : Adapter R) → let (r, a') = retry (once c reply) a in Retried 0 max_retries a r a'
  unfolding retry
  retry_lem a = attempts_lem 0 max_retries a

  -- What a call of ccxt and a sleep keep, `_retry` keeps.
  module _ (P : Adapter R → Type 0) (called : (a : Adapter R) → P a → P (once c reply a).1)
      (rested : (n : ℕ) (a : Adapter R) → P a → P (sleep n a).1) where
    after_keeps :
        (attempt left : ℕ) (a : Adapter R) (r : Reply A)
        → P (once c reply a).1
        → P (attempts (suc attempt) left (once c reply) (slept (2 ^ attempt) a)).1
        → P (after attempt left a r).1
    after_keeps attempt left a (answered x) p q = p
    after_keeps attempt left a (failed retryable) p q = q
    after_keeps attempt left a (failed authentication) p q = p
    after_keeps attempt left a (failed order_not_found) p q = p
    after_keeps attempt left a (failed not_supported) p q = p
    after_keeps attempt left a (failed refused) p q = p
    after_keeps attempt left a (failed broken) p q = p

    attempts_keeps :
        (attempt left : ℕ) (a : Adapter R)
        → P (once c reply a).1
        → P (attempts attempt left (once c reply) a).1
    unfolding attempts
    attempts_keeps attempt zero a p = p
    attempts_keeps attempt (suc left) a p = after_keeps attempt left a (reply a.count) p (
        attempts_keeps (suc attempt) left (slept (2 ^ attempt) a)
          (called _ (rested (2 ^ attempt) _ p)))

    pub retry_keeps : (a : Adapter R) → P (once c reply a).1 → P (retry (once c reply) a).1
    unfolding retry
    retry_keeps a p = attempts_keeps 0 max_retries a p
