-- ===== src/NonceStore/Remote.antt =====
-- packages/siwa/src/nonce-store.ts: the stores over a Redis client and over Workers KV. The client is
-- a parameter; each of its commands is one atomic step on a state that other clients share.
pub mod Atomic
use siwa.Base.{
  ℕ, zero, suc, ◌+◌, ◌*◌, ◌/◌, ◌≤◌, Bool, true, false, not, Option, none, some, List, [], ◌∷◌, ◌++◌,
  ◌==◌, if◌then◌else◌, is_some, Result, ok, throws, ◌>>=◌, String,
}
use siwa.Base.Str.{Str, text, str_eq}

-- Each command is run at a time of the Redis server, which is its first argument, and may throw.
pub record RedisLikeClient (S : Type 0) : Type 0 where
  -- SET key value PX ttl NX: the reply, none for null
  pub set_nx : ℕ → Str → Str → ℕ → S → S × Result (Option Str)
  -- DEL key: the number of removed keys
  pub del : ℕ → Str → S → S × Result ℕ

pub record KvNamespaceLike (S : Type 0) : Type 0 where
  pub put : Str → Str → ℕ → S → S
  pub get : Str → S → Option Str
  pub delete : Str → S → S

pub reply_is_ok : Option Str → Bool
unfolding str_eq text
reply_is_ok none = false
reply_is_ok (some reply) = str_eq reply (text "OK")

module _ {S : Type 0} (redis : RedisLikeClient S) (prefix : Str) where
  unfoldable pub redis_issue : ℕ → Str → ℕ → S → S × Result Bool
  unfolding reply_is_ok text
  redis_issue now nonce ttl s =
      let (s', reply) = redis.set_nx now (prefix ++ nonce) (text "1") ttl s in
      (s', reply >>= λ r. ok (reply_is_ok r))

  unfoldable pub redis_consume : ℕ → Str → S → S × Result Bool
  redis_consume now nonce s =
      let (s', reply) = redis.del now (prefix ++ nonce) s in
      (s', reply >>= λ deleted. ok (deleted == 1))

module _ {S : Type 0} (kv : KvNamespaceLike S) (prefix : Str) where
  unfoldable pub kv_issue : Str → ℕ → S → S × Bool
  unfolding text
  kv_issue nonce ttl s =
      if is_some (kv.get (prefix ++ nonce) s)
      then (s, false)
      else (kv.put (prefix ++ nonce) (text "1") ((ttl + 999) / 1000) s, true)

  -- `consume` reads the key, and then deletes it.
  pub kv_read : Str → S → Option Str
  kv_read nonce s = kv.get (prefix ++ nonce) s

  pub kv_finish : Str → Option Str → S → S × Bool
  kv_finish nonce none s = (s, false)
  kv_finish nonce (some value) s = (kv.delete (prefix ++ nonce) s, true)

  unfoldable pub kv_consume : Str → S → S × Bool
  unfolding kv_read kv_finish
  kv_consume nonce s = kv_finish nonce (kv_read nonce s) s
