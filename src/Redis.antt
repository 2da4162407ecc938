-- ===== src/Redis.antt =====
-- Redis as the services use it: hashes and sets, with what the commands are documented to do. A key that
-- is not there is an empty hash or set. No key runs out while a class is on.
pub mod Stored
use livetich_api.Prelude.{
  ℕ, ◌+◌, ◌≡◌, if◌then◌else◌, Text, same, Bool, true, false, not, ◌&&◌, ◌||◌, Option, none, some,
  is_some,
}

pub record RedisHash (V : Type 0) : Type 1 where
  pub Hash : Type 0
  pub empty : Hash
  pub hget : Text → Hash → Option V
  pub hset : Text → V → Hash → Hash
  pub hdel : Text → Hash → Hash
  pub hlen : Hash → ℕ
  pub hget-empty : (k : Text) → hget k empty ≡ none
  pub hget-hset :
      (k j : Text) (v : V) (h : Hash)
      → hget k (hset j v h) ≡ (if same k j then some v else hget k h)
  pub hget-hdel :
      (k j : Text) (h : Hash) → hget k (hdel j h) ≡ (if same k j then none else hget k h)
  pub hlen-empty : hlen empty ≡ 0
  pub hlen-hset :
      (j : Text) (v : V) (h : Hash)
      → hlen (hset j v h) ≡ hlen h + (if is_some (hget j h) then 0 else 1)
  pub hlen-hdel :
      (j : Text) (h : Hash) → hlen (hdel j h) + (if is_some (hget j h) then 1 else 0) ≡ hlen h

pub record RedisSet : Type 1 where
  pub Members : Type 0
  pub sismember : Text → Members → Bool
  pub sadd : Text → Members → Members
  pub srem : Text → Members → Members
  pub sismember-sadd :
      (k j : Text) (s : Members) → sismember k (sadd j s) ≡ (same k j || sismember k s)
  pub sismember-srem :
      (k j : Text) (s : Members) → sismember k (srem j s) ≡ (not (same k j) && sismember k s)
