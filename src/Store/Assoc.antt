-- ===== src/Store/Assoc.antt =====
-- Stores as association lists, on which the laws of the interfaces hold.
use disgo.Prelude.{◌≡◌, ◌≢◌, Option, none, some, List, [], ◌∷◌, if◌then◌else◌, sym, ap}
use disgo.Prelude.Text.{Bytes, ◌=ₛ◌, =ₛ_refl, =ₛ_ne, has_prefix}
use disgo.Types.Errors.{Error, Result, ok, err, key_not_found, ok-injective}
use disgo.Store.Defs.{Value, Cached, Stores, IsStore, IsCache}

module _ {A : Type 0} where
  unfoldable pub lookup : Bytes → List (Bytes × A) → Option A
  lookup k [] = none
  lookup k ((j, v) ∷ m) = if j =ₛ k then some v else lookup k m

  unfoldable pub without : Bytes → List (Bytes × A) → List (Bytes × A)
  without k [] = []
  without k ((j, v) ∷ m) = let rest = without k m in if j =ₛ k then rest else (j, v) ∷ rest

abbrev or_missing : Option Value → Result Value
or_missing none = err key_not_found
or_missing (some v) = ok v

-- The entries whose keys have the prefix, in the order of the list; the key to start at is not used.
unfoldable pub entries : Bytes → List (Bytes × Value) → List (Bytes × Value)
entries p [] = []
entries p ((k, v) ∷ m) = let rest = entries p m in if has_prefix p k then (k, v) ∷ rest else rest

-- One entry for each key, the last one that was set.
unfoldable pub latest : List (Bytes × Cached) → List (Bytes × Cached)
unfolding without
latest [] = []
latest ((k, v) ∷ m) = (k, v) ∷ without k (latest m)

abbrev pub assoc_stores : Stores
assoc_stores = record {
  Db = List (Bytes × Value);
  Txn = List (Bytes × Value);
  new_transaction = λ d. d;
  txn_get = λ t k. or_missing (lookup k t);
  txn_set = λ t k v. ok ((k, v) ∷ t);
  txn_delete = λ t k. ok (without k t);
  commit = λ t d. (none, t);
  iterate = λ t from p. entries p t;
  Cache = List (Bytes × Cached);
  cache_get = λ c k. lookup k c;
  cache_set = λ c k v. (k, v) ∷ c;
  cache_delete = λ c k. without k c;
  cache_items = latest;
}

module _ {A : Type 0} where
  lookup_self : (k : Bytes) (v : A) (m : List (Bytes × A)) → lookup k ((k, v) ∷ m) ≡ some v
  unfolding lookup
  lookup_self k v m = rw (=ₛ_refl k)

  lookup_ne :
      (k j : Bytes) (v : A) (m : List (Bytes × A)) → k ≢ j → lookup j ((k, v) ∷ m) ≡ lookup j m
  unfolding lookup
  lookup_ne k j v m h = rw (=ₛ_ne k j h)

pub assoc_IsStore : IsStore assoc_stores
assoc_IsStore = record {
  get-set_self = λ t u k v e. rw (← ok-injective e) (rw (lookup_self k v t));
  get-set_ne = λ t u k j v h e. rw (← ok-injective e) (rw (lookup_ne k j v t h));
  get-commit = λ t d d' k e.
      ap (λ (m : List (Bytes × Value)). or_missing (lookup k m))
        (sym (ap (λ (p : Option Error × List (Bytes × Value)). p.1) e));
  commit_fails = λ t d d' r e. cc e;
}

pub assoc_IsCache : IsCache assoc_stores
assoc_IsCache = record {
  get-set_self = λ c k v. lookup_self k v c;
  get-set_ne = λ c k j v h. lookup_ne k j v c h;
}
