-- ===== src/Scheduler/Quota/Reserve.antt =====
-- What `reserve` does to the headroom of the vendor, and to the other vendors.
use agentic_agnostic_orchest.Base.{
  ℕ, ◌≡◌, ◌≢◌, refl, String, true, put, get-put_self, get-put_ne, arith, leb→le,
}
use agentic_agnostic_orchest.Base.Int.{
  ℤ, pos, ◌+ℤ◌, ◌-ℤ◌, ◌≤ℤ◌, leb_ℤ, max_ℤ, min_ℤ, max_ℤ_ge, min_ℤ_le, min_ℤ_add, room_take,
}
use agentic_agnostic_orchest.Scheduler.Quota.{
  QuotaSnapshot, RedisHash, QuotaLedger, effective_remaining_seconds, snapshot, has_headroom, burnt,
  reserve, set_snapshot,
}

burnt_takes :
    (s : QuotaSnapshot) (v : String) (e : ℤ) (now : ℕ)
    → leb_ℤ (max_ℤ (pos 0) e) (effective_remaining_seconds s) ≡ true
    → effective_remaining_seconds (burnt s v e now) +ℤ max_ℤ (pos 0) e
      ≡ effective_remaining_seconds s
unfolding effective_remaining_seconds burnt
burnt_takes s v e now h =
    let m = max_ℤ (pos 0) e in
    let five = max_ℤ (pos 0) (s.five_hour_cap_seconds -ℤ s.used_five_hour_seconds) in
    let week = max_ℤ (pos 0) (s.weekly_cap_seconds -ℤ s.used_weekly_seconds) in
    let fits : m ≤ℤ min_ℤ five week = leb→le _ _ h in
    rw (
      min_ℤ_add,
      room_take s.five_hour_cap_seconds s.used_five_hour_seconds m (max_ℤ_ge (pos 0) e).0
          (omega (arith, min_ℤ_le five week)),
      room_take s.weekly_cap_seconds s.used_weekly_seconds m (max_ℤ_ge (pos 0) e).0
          (omega (arith, min_ℤ_le five week)),
    )

pub effective_nonneg : (s : QuotaSnapshot) → pos 0 ≤ℤ effective_remaining_seconds s
unfolding effective_remaining_seconds min_ℤ max_ℤ
effective_nonneg s = ground arith

module _ (H : RedisHash) where
  pub snapshots-set_snapshot :
      (l : QuotaLedger H) (s : QuotaSnapshot)
      → (set_snapshot H l s).snapshots ≡ put l.snapshots s.vendor s
  unfolding set_snapshot
  snapshots-set_snapshot l s = ground arith

  pub snapshot-reserve_self :
      (l : QuotaLedger H) (v : String) (e : ℤ) (now : ℕ)
      → snapshot H (reserve H l v e now) v ≡ burnt (snapshot H l v) v e now
  unfolding reserve snapshot
  snapshot-reserve_self l v e now = rw (snapshots-set_snapshot l _, get-put_self) refl

  -- Reserving for one vendor leaves the position of every other vendor as it was.
  pub snapshot-reserve_ne :
      (l : QuotaLedger H) (v w : String) (e : ℤ) (now : ℕ)
      → v ≢ w
      → snapshot H (reserve H l v e now) w ≡ snapshot H l w
  unfolding reserve snapshot
  snapshot-reserve_ne l v w e now h =
      rw (snapshots-set_snapshot l _, get-put_ne l.snapshots v w _ h) refl

  -- A reservation that has_headroom admits takes exactly the estimate, or nothing for a negative
  -- one, from the dispatchable seconds, which stay at zero or more.
  pub reserve_takes :
      (l : QuotaLedger H) (v : String) (e : ℤ) (now : ℕ)
      → has_headroom H l v e ≡ true
      → (effective_remaining_seconds (snapshot H (reserve H l v e now) v) +ℤ max_ℤ (pos 0) e
          ≡ effective_remaining_seconds (snapshot H l v))
        × (pos 0 ≤ℤ effective_remaining_seconds (snapshot H (reserve H l v e now) v))
  unfolding has_headroom
  reserve_takes l v e now h =
      rw (snapshot-reserve_self l v e now)
        (burnt_takes (snapshot H l v) v e now h, effective_nonneg _)
