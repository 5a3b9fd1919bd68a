-- ===== src/Seats/Pool/Exclusive.antt =====
-- Who holds a seat: what each operation does to the references of a seat and to its queue.
use agentic_agnostic_orchest.Base.{
  ℕ, suc, ◌+◌, ◌-◌, ◌≤◌, ◌<◌, ◌≡◌, refl, sym, ◌∙◌, ap, String, false, some, List, [], ◌∷◌, ◌++◌,
  get, leb, eqb, arith, eq_refl, get-put_self,
}
use agentic_agnostic_orchest.Seats.Pool.{
  Seat, Provided, SeatPool, seat, released, set_queue, queue_of, set_seat, acquire_subagent,
  release, take_seat, acquire, drop_reference,
}

-- The queue under the key of a seat after it was set
queue-set_queue :
    (p : SeatPool) (t v : String) (q : List String) → (set_queue p t v q).pools t v ≡ some q
unfolding set_queue
queue-set_queue p t v q = rw (eq_refl t, eq_refl v) refl

-- The store of a pool in which the seat `u` has `n` references.
abbrev pub with_count : SeatPool → Seat → ℕ → SeatPool
with_count p u n = set_seat p (record u { ref_count = n })

joined :
    (p : SeatPool) (u : Seat) (m : ℕ)
    → get p.all_seats u.seat_id ≡ some u
    → u.ref_count ≡ suc m
    → (acquire_subagent p u.seat_id).1 ≡ with_count p u (suc (suc m))
unfolding acquire_subagent
joined p u m e count =
    let busy : leb u.ref_count 0 ≡ false = ground arith in
    let more : u.ref_count + 1 ≡ suc (suc m) = omega (arith, count) in
    rw (e, acquire_subagent, busy, more) refl

dropped :
    (p : SeatPool) (u : Seat) (m : ℕ)
    → get p.all_seats u.seat_id ≡ some u
    → u.ref_count ≡ suc (suc m)
    → (release p u.seat_id).1 ≡ with_count p u (suc m)
unfolding release drop_reference
dropped p u m e count =
    let fewer : u.ref_count - 1 ≡ suc m = omega (arith, count) in
    let held : eqb (suc m) 0 ≡ false = ground arith in
    rw (e, release, drop_reference, fewer, held) refl

returned :
    (p : SeatPool) (u : Seat) (q : List String)
    → get p.all_seats u.seat_id ≡ some u
    → u.ref_count ≤ 1
    → p.pools u.tenant_id u.vendor ≡ some q
    → release p u.seat_id
      ≡ (released, set_queue (with_count p u 0) u.tenant_id u.vendor (q ++ u.seat_id ∷ []))
unfolding release drop_reference
returned p u q e count queue =
    let none_left : u.ref_count - 1 ≡ 0 = omega (arith, count) in
    rw (e, release, drop_reference, none_left, queue)
      (ap (λ n. (released, set_queue (with_count p u n) u.tenant_id u.vendor (q ++ u.seat_id ∷ [])))
        none_left)

-- A subagent that joins a seat with at least one reference and leaves it again leaves the
-- references and the queues as they were.
pub subagent_leaves_no_trace :
    (p : SeatPool) (u : Seat) (m : ℕ)
    → get p.all_seats u.seat_id ≡ some u
    → u.ref_count ≡ suc m
    → let p' = (release (acquire_subagent p u.seat_id).1 u.seat_id).1 in
      (get p'.all_seats u.seat_id ≡ some u) × ((t v : String) → p'.pools t v ≡ p.pools t v)
unfolding set_seat
subagent_leaves_no_trace p u m e count =
    let again = get-put_self p.all_seats u.seat_id (record u { ref_count = suc (suc m) }) in
    rw
      (
        joined p u m e count,
        dropped (with_count p u (suc (suc m))) (record u { ref_count = suc (suc m) }) m again refl,
      )
      (
        rw (get-put_self _ u.seat_id (record u { ref_count = suc m }))
            (ap (λ n. some (record u { ref_count = n })) (sym count)),
        λ t v. refl,
      )

-- `acquire` on a queue whose first seat has a token that is still good
acquired :
    (provider : Seat → Provided) (p : SeatPool) (u : Seat) (rest : List String) (now : ℕ)
    → get p.all_seats u.seat_id ≡ some u
    → p.pools u.tenant_id u.vendor ≡ some (u.seat_id ∷ rest)
    → now < u.lease_expiry
    → acquire provider p u.tenant_id u.vendor now ≡ (
      seat (record u { ref_count = u.ref_count + 1 }),
      with_count (set_queue p u.tenant_id u.vendor rest) u (u.ref_count + 1),
    )
unfolding acquire take_seat queue_of
acquired provider p u rest now e queue fresh =
    let good : leb u.lease_expiry now ≡ false = ground arith in
    rw (queue, acquire, e, take_seat, good) refl

-- A seat with no reference that stands alone in its queue with a good token is put there a second
-- time by a further release, and the next two calls of acquire both answer it.
pub extra_release_shares_seat :
    (provider : Seat → Provided) (p : SeatPool) (u : Seat) (now : ℕ)
    → get p.all_seats u.seat_id ≡ some u
    → u.ref_count ≡ 0
    → p.pools u.tenant_id u.vendor ≡ some (u.seat_id ∷ [])
    → now < u.lease_expiry
    → let p₁ = (release p u.seat_id).1 in
      let (first_answer, p₂) = acquire provider p₁ u.tenant_id u.vendor now in
      let (second_answer, p₃) = acquire provider p₂ u.tenant_id u.vendor now in
      (first_answer ≡ seat (record u { ref_count = 1 }))
      × (second_answer ≡ seat (record u { ref_count = 2 }))
unfolding set_seat set_queue
extra_release_shares_seat provider p u now e count queue fresh =
    let u₀ : Seat = record u { ref_count = 0 } in
    let p₁ = set_queue (with_count p u 0) u.tenant_id u.vendor (u.seat_id ∷ u.seat_id ∷ []) in
    let e₁ : get p₁.all_seats u.seat_id ≡ some u₀ = get-put_self p.all_seats u.seat_id u₀ in
    let q₁ = queue-set_queue (with_count p u 0) u.tenant_id u.vendor (u.seat_id ∷ u.seat_id ∷ []) in
    let u₁ : Seat = record u { ref_count = 1 } in
    let p₂ = with_count (set_queue p₁ u.tenant_id u.vendor (u.seat_id ∷ [])) u 1 in
    let e₂ : get p₂.all_seats u.seat_id ≡ some u₁ = get-put_self p₁.all_seats u.seat_id u₁ in
    let q₂ = queue-set_queue p₁ u.tenant_id u.vendor (u.seat_id ∷ []) in
    rw
      (
        returned p u (u.seat_id ∷ []) e (omega (arith, count)) queue,
        acquired provider p₁ u₀ (u.seat_id ∷ []) now e₁ q₁ fresh,
        acquired provider p₂ u₁ [] now e₂ q₂ fresh,
      )
      (refl, refl)

-- acquire takes the first seat of a queue whose token is good and which has no reference, so that
-- it has left the queue, and the release that follows puts it at the end with no reference.
pub acquire-release :
    (provider : Seat → Provided) (p : SeatPool) (u : Seat) (rest : List String) (now : ℕ)
    → get p.all_seats u.seat_id ≡ some u
    → u.ref_count ≡ 0
    → p.pools u.tenant_id u.vendor ≡ some (u.seat_id ∷ rest)
    → now < u.lease_expiry
    → let (answer, p₁) = acquire provider p u.tenant_id u.vendor now in
      let (end_answer, p₂) = release p₁ u.seat_id in
      (answer ≡ seat (record u { ref_count = 1 }))
      × (p₁.pools u.tenant_id u.vendor ≡ some rest)
      × (end_answer ≡ released)
      × (p₂.pools u.tenant_id u.vendor ≡ some (rest ++ u.seat_id ∷ []))
      × (get p₂.all_seats u.seat_id ≡ some u)
unfolding set_seat set_queue
acquire-release provider p u rest now e count queue fresh =
    let one : u.ref_count + 1 ≡ 1 = omega (arith, count) in
    let u₁ : Seat = record u { ref_count = 1 } in
    let p₁ = with_count (set_queue p u.tenant_id u.vendor rest) u 1 in
    let e₁ : get p₁.all_seats u.seat_id ≡ some u₁ = get-put_self p.all_seats u.seat_id u₁ in
    let q₁ = queue-set_queue p u.tenant_id u.vendor rest in
    rw (acquired provider p u rest now e queue fresh, one, returned p₁ u₁ rest e₁ (omega arith) q₁)
      (
        refl,
        q₁,
        refl,
        queue-set_queue p₁ u.tenant_id u.vendor (rest ++ u.seat_id ∷ []),
        get-put_self p₁.all_seats u.seat_id _
            ∙ ap (λ n. some (record u { ref_count = n })) (sym count),
      )
