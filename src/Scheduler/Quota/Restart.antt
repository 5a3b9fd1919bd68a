-- ===== src/Scheduler/Quota/Restart.antt =====
-- The ledger and the Redis hash across a restart.
use mathlib.Core.Option
use agentic_agnostic_orchest.Base.{
  ℕ, ◌≡◌, refl, String, none, some, List, [], ◌∷◌, Dict, IsUnique, get, put, get-put, dict_values,
  arith, eq_iff, sym, ◌∙◌, subst, All, weaken-All, All-map, Option-cases, inl, inr,
}
use agentic_agnostic_orchest.Base.Int.{ℤ}
use agentic_agnostic_orchest.Scheduler.Quota.{
  QuotaSnapshot, Payload, to_payload, from_payload, RedisHash, QuotaLedger, snapshot, burnt,
  reserve, set_snapshot, persist, load_items, persist_all, new_ledger, load_persisted_snapshots,
}

-- Loading a hash whose fields are distinct: a field that is there wins over the dictionary.
get-load_items_absent :
    (H : RedisHash) (items : Dict Payload) (d : Dict QuotaSnapshot) (k : String)
    → get items k ≡ none
    → get (load_items H items d) k ≡ get d k
unfolding load_items get
get-load_items_absent H [] d k h = refl
get-load_items_absent H ((j, p) ∷ items) d k h = ground (
  arith,
  get-load_items_absent H items (put d j (from_payload p)) k,
  get-put d j k (from_payload p),
  eq_iff j k,
)

get-load_items :
    (H : RedisHash) (items : Dict Payload) (d : Dict QuotaSnapshot) (k : String) (p : Payload)
    → IsUnique items
    → get items k ≡ some p
    → get (load_items H items d) k ≡ some (from_payload p)
unfolding load_items get
get-load_items H [] d k p u h = cc
get-load_items H ((j, q) ∷ items) d k p u h = ground (
  arith,
  get-load_items H items (put d j (from_payload q)) k p u.1,
  get-load_items_absent H items (put d j (from_payload q)) k,
  get-put d j k (from_payload q),
  eq_iff j k,
)

load_items-eq-map :
    (H : RedisHash) (items : Dict Payload) (k : String)
    → IsUnique items
    → get (load_items H items []) k ≡ Option.map from_payload (get items k)
unfolding get
load_items-eq-map H items k u = elim (Option-cases (get items k)) [
  | inl e ↦ rw (e, get-load_items_absent H items [] k e) refl
  | inr (p, e) ↦ rw (e, get-load_items H items [] k p u e) refl
]

abbrev Entry : Type 0
Entry = String × QuotaSnapshot

put-All :
    (P : Entry → Type 0) (d : Dict QuotaSnapshot) (k : String) (s : QuotaSnapshot)
    → All P d
    → P (k, s)
    → All P (put d k s)
unfolding put
put-All P [] k s h p = (p, tt)
put-All P ((j, w) ∷ d) k s h p = ground (arith, put-All P d k s h.1 p)

load_items-All :
    (H : RedisHash) (P : Entry → Type 0) (items : Dict Payload) (d : Dict QuotaSnapshot)
    → All (λ e. P (e.0, from_payload e.1)) items
    → All P d
    → All P (load_items H items d)
unfolding load_items
load_items-All H P [] d h g = g
load_items-All H P ((k, p) ∷ items) d h g =
    load_items-All H P items (put d k (from_payload p)) h.1 (put-All P d k (from_payload p) g h.0)

get-of_entries : (items : Dict Payload) → IsUnique items → All (λ e. get items e.0 ≡ some e.1) items
unfolding get
get-of_entries [] u = tt
get-of_entries ((k, p) ∷ items) u = (
  ground (arith, eq_iff k k),
  weaken-All (λ e. get items e.0 ≡ some e.1) (λ e. get ((k, p) ∷ items) e.0 ≡ some e.1)
      (λ e h. ground (arith, eq_iff k e.0, h, u.0)) items (get-of_entries items u.1),
)

module _ (H : RedisHash) where
  open H use {Store, hset, hgetall, hgetall-IsUnique, hgetall-hset}

  -- Each stored payload names its own field.
  abbrev pub IsKeyed : Store → Type 0
  IsKeyed st = (k : String) (p : Payload) → get (hgetall st) k ≡ some p → p.vendor ≡ k

  -- The ledger is backed by the hash, and they hold the same snapshots.
  record IsSynced (l : QuotaLedger H) (st : Store) : Type 0 where
    backed : l.redis ≡ some st
    mirrored : (k : String) → get l.snapshots k ≡ Option.map from_payload (get (hgetall st) k)
    keyed : IsKeyed st

  -- Writing back what is there already.
  abbrev IsStored : Store → QuotaSnapshot → Type 0
  IsStored st s = get (hgetall st) s.vendor ≡ some (to_payload s)

  abbrev SameHash : Store → Store → Type 0
  SameHash st st' = (k : String) → get (hgetall st') k ≡ get (hgetall st) k

  hset-SameHash :
      (st : Store) (s : QuotaSnapshot)
      → IsStored st s
      → SameHash st (hset st s.vendor (to_payload s))
  hset-SameHash st s h k =
      ground (arith, hgetall-hset st s.vendor (to_payload s) k, eq_iff s.vendor k)

  persist_backed :
      (l : QuotaLedger H) (st : Store) (s : QuotaSnapshot)
      → l.redis ≡ some st
      → persist H l s ≡ record l { redis = some (hset st s.vendor (to_payload s)) }
  unfolding persist
  persist_backed l st s e = ground arith

  record Rewritten (l l' : QuotaLedger H) (st : Store) : Type 0 where
    store : Store
    backed : l'.redis ≡ some store
    kept : l'.snapshots ≡ l.snapshots
    same : SameHash st store

  persist_all-Rewritten :
      (ss : List QuotaSnapshot) (l : QuotaLedger H) (st : Store)
      → l.redis ≡ some st
      → All (IsStored st) ss
      → Rewritten l (persist_all H ss l) st
  unfolding persist_all
  persist_all-Rewritten [] l st e h = record {
    store = st;
    backed = e;
    kept = refl;
    same = λ k. refl;
  }
  persist_all-Rewritten (s ∷ ss) l st e h =
      let st₁ = hset st s.vendor (to_payload s) in
      let same₁ = hset-SameHash st s h.0 in
      let r =
        persist_all-Rewritten ss (record l { redis = some st₁ }) st₁ refl
          (weaken-All (IsStored st) (IsStored st₁) (λ t p. same₁ t.vendor ∙ p) ss h.1) in
      rw (persist_backed l st s e) (record {
        store = r.store;
        backed = r.backed;
        kept = r.kept;
        same = λ k. r.same k ∙ same₁ k;
      })

  record Synced (l : QuotaLedger H) : Type 0 where
    store : Store
    sync : IsSynced l store

  loaded_entries :
      (st : Store)
      → IsKeyed st
      → All (λ (e : Entry). IsStored st e.1) (load_items H (hgetall st) [])
  unfolding to_payload from_payload
  loaded_entries st keyed =
      load_items-All H (λ e. IsStored st e.1) (hgetall st) []
        (weaken-All {A = String × Payload} (λ e. get (hgetall st) e.0 ≡ some e.1)
          (λ e. IsStored st (from_payload e.1))
          (λ e h. subst (λ k. get (hgetall st) k ≡ some e.1) (sym (keyed e.0 e.1 h)) h) (hgetall st)
          (get-of_entries (hgetall st) (hgetall-IsUnique st)))
        tt

  abbrev loaded : Store → QuotaLedger H
  loaded st = record { redis = some st; snapshots = load_items H (hgetall st) [] }

  new_ledger-Rewritten :
      (st : Store) → IsKeyed st → Rewritten (loaded st) (new_ledger H [] (some st)) st
  unfolding new_ledger load_persisted_snapshots
  new_ledger-Rewritten st keyed =
      persist_all-Rewritten (dict_values (loaded st).snapshots) (loaded st) st refl
        (All-map (λ (e : Entry). e.1) (IsStored st) (loaded st).snapshots (loaded_entries st keyed))

  -- A new ledger holds what the hash holds.
  new_ledger-mirrored :
      (st : Store)
      → IsKeyed st
      → (k : String)
      → get (new_ledger H [] (some st)).snapshots k ≡ Option.map from_payload (get (hgetall st) k)
  new_ledger-mirrored st keyed k =
      rw (new_ledger-Rewritten st keyed).kept
        (load_items-eq-map H (hgetall st) k (hgetall-IsUnique st))

  -- A ledger that starts on a hash is in step with it.
  new_ledger-Synced : (st : Store) → IsKeyed st → Synced (new_ledger H [] (some st))
  new_ledger-Synced st keyed =
      let r = new_ledger-Rewritten st keyed in
      record {
        store = r.store;
        sync = record {
          backed = r.backed;
          mirrored = λ k. rw (r.same k) (new_ledger-mirrored st keyed k);
          keyed = λ k p h. keyed k p (sym (r.same k) ∙ h);
        };
      }

  -- What `set_snapshot` leaves behind on a hash.
  abbrev after_set : QuotaLedger H → Store → QuotaSnapshot → QuotaLedger H
  after_set l st s = record {
    redis = some (hset st s.vendor (to_payload s));
    snapshots = put l.snapshots s.vendor s;
  }

  set_snapshot_backed :
      (l : QuotaLedger H) (st : Store) (s : QuotaSnapshot)
      → l.redis ≡ some st
      → set_snapshot H l s ≡ after_set l st s
  unfolding set_snapshot
  set_snapshot_backed l st s e =
      persist_backed (record l { snapshots = put l.snapshots s.vendor s }) st s e

  after_set-IsSynced :
      (l : QuotaLedger H) (st : Store) (s : QuotaSnapshot)
      → IsSynced l st
      → IsSynced (after_set l st s) (hset st s.vendor (to_payload s))
  unfolding to_payload from_payload
  after_set-IsSynced l st s h = record {
    backed = refl;
    mirrored = λ k. ground (
      arith,
      get-put l.snapshots s.vendor k s,
      hgetall-hset st s.vendor (to_payload s) k,
      h.mirrored k,
    );
    keyed = λ k p e.
        ground (arith, hgetall-hset st s.vendor (to_payload s) k, h.keyed k p, eq_iff s.vendor k);
  }

  reserve-Synced :
      (v : String) (e : ℤ) (now : ℕ) (l : QuotaLedger H) → Synced l → Synced (reserve H l v e now)
  unfolding reserve
  reserve-Synced v e now l s =
      let new = burnt (snapshot H l v) v e now in
      rw (set_snapshot_backed l s.store new s.sync.backed) (record {
        store = hset s.store new.vendor (to_payload new);
        sync = after_set-IsSynced l s.store new s.sync;
      })

  -- A sequence of reservations, each of a vendor, an estimate and a time.
  pub reserve_all : List (String × ℤ × ℕ) → QuotaLedger H → QuotaLedger H
  reserve_all [] l = l
  reserve_all ((v, e, now) ∷ burns) l = reserve_all burns (reserve H l v e now)

  reserve_all-Synced :
      (burns : List (String × ℤ × ℕ)) (l : QuotaLedger H) → Synced l → Synced (reserve_all burns l)
  unfolding reserve_all
  reserve_all-Synced [] l s = s
  reserve_all-Synced ((v, e, now) ∷ burns) l s =
      reserve_all-Synced burns (reserve H l v e now) (reserve-Synced v e now l s)

  -- A ledger that began on a hash whose payloads name their own fields, and made any
  -- reservations, leaves a hash on which a new ledger answers the same snapshot for every vendor.
  pub quota_survives_restart :
      (st : Store) (burns : List (String × ℤ × ℕ))
      → IsKeyed st
      → let l = reserve_all burns (new_ledger H [] (some st)) in
        (st' : Store) × (l.redis ≡ some st')
        × ((v : String) → snapshot H (new_ledger H [] (some st')) v ≡ snapshot H l v)
  unfolding snapshot
  quota_survives_restart st burns keyed =
      let s = reserve_all-Synced burns _ (new_ledger-Synced st keyed) in
      (
        s.store,
        s.sync.backed,
        λ v. rw (new_ledger-mirrored s.store s.sync.keyed v, s.sync.mirrored v) refl,
      )
