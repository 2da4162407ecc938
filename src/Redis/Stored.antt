-- ===== src/Redis/Stored.antt =====
-- Hashes and sets that keep the laws of Redis: lists of entries, the newest first, and lists of members.
use livetich_api.Prelude.{
  ℕ, ◌+◌, if◌then◌else◌, ◌≡◌, refl, Text, same, same_iff, same_refl, not, ◌&&◌, Option, none, some,
  is_some, List, [], ◌∷◌, any, filter, arith,
}
use livetich_api.Redis.{RedisHash, RedisSet}

module _ {V : Type 0} where
  unfoldable pub look_up : Text → List (Text × V) → Option V
  look_up k [] = none
  look_up k ((j, v) ∷ h) = let rest = look_up k h in if same k j then some v else rest

  unfoldable pub remove : Text → List (Text × V) → List (Text × V)
  remove k [] = []
  remove k ((j, v) ∷ h) = let rest = remove k h in if same j k then rest else (j, v) ∷ rest

  unfoldable pub count_keys : List (Text × V) → ℕ
  count_keys [] = 0
  count_keys ((j, v) ∷ h) = count_keys h + (if is_some (look_up j h) then 0 else 1)

  pub look_up-remove :
      (k j : Text) (h : List (Text × V))
      → look_up k (remove j h) ≡ (if same k j then none else look_up k h)
  unfolding look_up remove
  look_up-remove k j [] = ground arith
  look_up-remove k j ((i, v) ∷ h) =
      ground (arith, look_up-remove k j h, same_iff i j, same_iff k j, same_iff k i, same_refl j)

  pub count_keys-remove :
      (j : Text) (h : List (Text × V))
      → count_keys (remove j h) + (if is_some (look_up j h) then 1 else 0) ≡ count_keys h
  unfolding count_keys remove look_up
  count_keys-remove j [] = refl
  count_keys-remove j ((i, v) ∷ h) =
      ground (
        arith,
        count_keys-remove j h,
        look_up-remove i j h,
        same_iff i j,
        same_iff j i,
        same_refl j,
      )

  pub count_keys-entry :
      (j : Text) (v : V) (h : List (Text × V))
      → count_keys ((j, v) ∷ h) ≡ count_keys h + (if is_some (look_up j h) then 0 else 1)
  unfolding count_keys
  count_keys-entry j v h = refl

  pub look_up-entry :
      (k j : Text) (v : V) (h : List (Text × V))
      → look_up k ((j, v) ∷ h) ≡ (if same k j then some v else look_up k h)
  unfolding look_up
  look_up-entry k j v h = refl

  pub look_up-nothing : (k : Text) → look_up k [] ≡ none
  unfolding look_up
  look_up-nothing k = refl

  pub count_keys-nothing : (h : List (Text × V)) → h ≡ [] → count_keys h ≡ 0
  unfolding count_keys
  count_keys-nothing h e = rw e refl

  abbrev pub stored : RedisHash V
  stored = record {
    Hash = List (Text × V);
    empty = [];
    hget = look_up;
    hset = λ k v h. (k, v) ∷ h;
    hdel = remove;
    hlen = count_keys;
    hget-empty = look_up-nothing;
    hget-hset = look_up-entry;
    hget-hdel = look_up-remove;
    hlen-empty = count_keys-nothing [] refl;
    hlen-hset = count_keys-entry;
    hlen-hdel = count_keys-remove;
  }

pub any-filter :
    (k j : Text) (s : List Text)
    → any (same k) (filter (λ i. not (same i j)) s) ≡ (not (same k j) && any (same k) s)
any-filter k j [] = ground arith
any-filter k j (i ∷ s) = ground (arith, any-filter k j s, same_iff k i, same_iff k j, same_refl i)

abbrev pub members : RedisSet
members = record {
  Members = List Text;
  sismember = λ k s. any (same k) s;
  sadd = λ k s. k ∷ s;
  srem = λ k s. filter (λ i. not (same i k)) s;
  sismember-sadd = λ k j s. refl;
  sismember-srem = any-filter;
}
