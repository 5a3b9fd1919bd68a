-- ===== src/Scheduler/Quota.antt =====
-- control-plane/scheduler/quota.py: the shared quota ledger. The optional Redis client is a store of
-- payloads, a parameter; `isoformat` and `json` are undone by `fromisoformat` and `loads`, so that a
-- payload is the record of its fields. Times are numbers.
pub mod Reserve
pub mod Restart
use agentic_agnostic_orchest.Base.{
  ℕ, ◌*◌, ◌≡◌, String, Bool, Option, none, some, List, [], ◌∷◌, Dict, IsUnique, get, put,
  dict_values, get_or, if◌then◌else◌, ◌==◌,
}
use agentic_agnostic_orchest.Base.Int.{ℤ, pos, ◌+ℤ◌, ◌-ℤ◌, leb_ℤ, max_ℤ, min_ℤ}

pub record QuotaSnapshot : Type 0 where
  pub vendor : String
  pub five_hour_cap_seconds : ℤ
  pub weekly_cap_seconds : ℤ
  pub used_five_hour_seconds : ℤ
  pub used_weekly_seconds : ℤ
  pub measured_at : Option ℕ

abbrev pub five_hours : ℤ
five_hours = pos (5 * 60 * 60)

-- `QuotaSnapshot(vendor=vendor)`
unfoldable pub unused : String → QuotaSnapshot
unused vendor = record {
  vendor = vendor;
  five_hour_cap_seconds = five_hours;
  weekly_cap_seconds = five_hours;
  used_five_hour_seconds = pos 0;
  used_weekly_seconds = pos 0;
  measured_at = none;
}

unfoldable pub five_hour_remaining_seconds : QuotaSnapshot → ℤ
five_hour_remaining_seconds s = max_ℤ (pos 0) (s.five_hour_cap_seconds -ℤ s.used_five_hour_seconds)

unfoldable pub weekly_remaining_seconds : QuotaSnapshot → ℤ
weekly_remaining_seconds s = max_ℤ (pos 0) (s.weekly_cap_seconds -ℤ s.used_weekly_seconds)

unfoldable pub effective_remaining_seconds : QuotaSnapshot → ℤ
unfolding five_hour_remaining_seconds weekly_remaining_seconds
effective_remaining_seconds s = min_ℤ (five_hour_remaining_seconds s) (weekly_remaining_seconds s)

-- The snapshot that `reserve` writes.
unfoldable pub burnt : QuotaSnapshot → String → ℤ → ℕ → QuotaSnapshot
burnt current vendor estimated now = record {
  vendor = vendor;
  five_hour_cap_seconds = current.five_hour_cap_seconds;
  weekly_cap_seconds = current.weekly_cap_seconds;
  used_five_hour_seconds = current.used_five_hour_seconds +ℤ max_ℤ (pos 0) estimated;
  used_weekly_seconds = current.used_weekly_seconds +ℤ max_ℤ (pos 0) estimated;
  measured_at = some now;
}

-- What `json.dumps` writes for a snapshot.
pub record Payload : Type 0 where
  pub vendor : String
  pub five_hour_cap_seconds : ℤ
  pub weekly_cap_seconds : ℤ
  pub used_five_hour_seconds : ℤ
  pub used_weekly_seconds : ℤ
  pub measured_at : Option ℕ

unfoldable pub to_payload : QuotaSnapshot → Payload
to_payload s = record {
  vendor = s.vendor;
  five_hour_cap_seconds = s.five_hour_cap_seconds;
  weekly_cap_seconds = s.weekly_cap_seconds;
  used_five_hour_seconds = s.used_five_hour_seconds;
  used_weekly_seconds = s.used_weekly_seconds;
  measured_at = s.measured_at;
}

unfoldable pub from_payload : Payload → QuotaSnapshot
from_payload p = record {
  vendor = p.vendor;
  five_hour_cap_seconds = p.five_hour_cap_seconds;
  weekly_cap_seconds = p.weekly_cap_seconds;
  used_five_hour_seconds = p.used_five_hour_seconds;
  used_weekly_seconds = p.used_weekly_seconds;
  measured_at = p.measured_at;
}

-- The Redis hash under `redis_key`: HSET writes one field and leaves the others, and HGETALL lists
-- each field once.
pub record RedisHash : Type 1 where
  pub Store : Type 0
  pub hset : Store → String → Payload → Store
  pub hgetall : Store → Dict Payload
  pub hgetall-IsUnique : (s : Store) → IsUnique (hgetall s)
  pub hgetall-hset :
      (s : Store) (k : String) (p : Payload) (j : String)
      → get (hgetall (hset s k p)) j ≡ (if k == j then some p else get (hgetall s) j)

module _ (H : RedisHash) where
  open H use {Store, hset, hgetall}

  pub record QuotaLedger : Type 0 where
    pub redis : Option Store
    pub snapshots : Dict QuotaSnapshot

  unfoldable pub persist : QuotaLedger → QuotaSnapshot → QuotaLedger
  unfolding to_payload
  persist l s = elim l.redis [
    | none ↦ l
    | some store ↦ record l { redis = some (hset store s.vendor (to_payload s)) }
  ]

  -- The loop over `raw_items.items()`.
  unfoldable pub load_items : Dict Payload → Dict QuotaSnapshot → Dict QuotaSnapshot
  unfolding from_payload
  load_items [] d = d
  load_items ((vendor, payload) ∷ items) d = load_items items (put d vendor (from_payload payload))

  unfoldable pub load_persisted_snapshots : QuotaLedger → QuotaLedger
  unfolding load_items
  load_persisted_snapshots l = elim l.redis [
    | none ↦ l
    | some store ↦ record l { snapshots = load_items (hgetall store) l.snapshots }
  ]

  unfoldable pub persist_all : List QuotaSnapshot → QuotaLedger → QuotaLedger
  unfolding persist
  persist_all [] l = l
  persist_all (s ∷ ss) l = persist_all ss (persist l s)

  -- `QuotaLedger.__init__`
  unfoldable pub new_ledger : Dict QuotaSnapshot → Option Store → QuotaLedger
  unfolding load_persisted_snapshots persist_all dict_values
  new_ledger snapshots redis =
      let l = load_persisted_snapshots (record { redis = redis; snapshots = snapshots }) in
      persist_all (dict_values l.snapshots) l

  unfoldable pub set_snapshot : QuotaLedger → QuotaSnapshot → QuotaLedger
  unfolding persist
  set_snapshot l s = persist (record l { snapshots = put l.snapshots s.vendor s }) s

  unfoldable pub snapshot : QuotaLedger → String → QuotaSnapshot
  unfolding unused
  snapshot l vendor = get_or (get l.snapshots vendor) (unused vendor)

  unfoldable pub has_headroom : QuotaLedger → String → ℤ → Bool
  has_headroom l vendor estimated =
      leb_ℤ (max_ℤ (pos 0) estimated) (effective_remaining_seconds (snapshot l vendor))

  unfoldable pub reserve : QuotaLedger → String → ℤ → ℕ → QuotaLedger
  unfolding burnt
  reserve l vendor estimated now = set_snapshot l (burnt (snapshot l vendor) vendor estimated now)
