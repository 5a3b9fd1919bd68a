-- ===== src/Seats/Pool/Stranded.antt =====
-- A seat whose token cannot be refreshed: what later calls of `acquire` can hand out.
use agentic_agnostic_orchest.Base.{
  ℕ, ◌+◌, ◌≤◌, ◌≡◌, refl, sym, ◌∙◌, subst, String, Bool, true, false, ◌&&◌, none, some, List, [],
  ◌∷◌, get, leb, arith, member, All, Bool-cases, Option-cases, inl, inr, ◌==◌, eq_iff, get-put_self,
  get-put_ne, is_empty, ◌⊎◌,
}
use agentic_agnostic_orchest.Seats.Pool.{
  Seat, Provided, absent, fails, gives, SeatPool, Reply, seat, runtime_error, set_queue, queue_of,
  set_seat, refresh_token, take_seat, acquire,
}

-- A call of `acquire`, with what the providers do at that time.
pub record Request : Type 0 where
  pub provider : Seat → Provided
  pub tenant_id : String
  pub vendor : String
  pub now : ℕ

-- The answers of calls in a row
pub acquires : List Request → SeatPool → List Reply
acquires [] p = []
acquires (r ∷ rest) p =
    let (answer, p') = acquire r.provider p r.tenant_id r.vendor r.now in answer ∷ acquires rest p'

pub hands_out : String → Reply → Bool
hands_out id (seat s) = s.seat_id == id
hands_out id _ = false

-- Seats stand under their ids.
abbrev pub IsKeyed : SeatPool → Type 0
IsKeyed p = (k : String) (s : Seat) → get p.all_seats k ≡ some s → s.seat_id ≡ k

-- The seat is the first of its queue, and stands nowhere else.
pub record IsFirst (p : SeatPool) (u : Seat) (rest : List String) : Type 0 where
  pub known : get p.all_seats u.seat_id ≡ some u
  pub queue : p.pools u.tenant_id u.vendor ≡ some (u.seat_id ∷ rest)
  pub once : member u.seat_id rest ≡ false
  pub only :
      (t v : String) (q : List String)
      → ((u.tenant_id == t) && (u.vendor == v)) ≡ false
      → p.pools t v ≡ some q
      → member u.seat_id q ≡ false

-- No queue has the seat.
record IsLost (id : String) (p : SeatPool) : Type 0 where
  keyed : IsKeyed p
  nowhere : (t v : String) (q : List String) → p.pools t v ≡ some q → member id q ≡ false

some_queue : (a b : List String) → some a ≡ some b → a ≡ b
some_queue a b h = cc h

set_queue-nowhere :
    (id : String) (p : SeatPool) (t v : String) (q : List String)
    → member id q ≡ false
    → ((t' v' : String) (r : List String)
        → ((t == t') && (v == v')) ≡ false
        → p.pools t' v' ≡ some r
        → member id r ≡ false)
    → (t' v' : String) (r : List String) → (set_queue p t v q).pools t' v' ≡ some r
    → member id r ≡ false
unfolding set_queue
set_queue-nowhere id p t v q free others t' v' r e = elim (Bool-cases ((t == t') && (v == v'))) [
  | inl here ↦ subst (λ x. member id x ≡ false) (some_queue q r (rw here at e)) free
  | inr apart ↦ others t' v' r apart (rw apart at e)
]

set_seat-IsKeyed : (p : SeatPool) (s : Seat) → IsKeyed p → IsKeyed (set_seat p s)
unfolding set_seat
set_seat-IsKeyed p s h k t e = elim (Bool-cases (s.seat_id == k)) [
  | inl same ↦
      let here = (eq_iff s.seat_id k).0 same in cc (get-put_self p.all_seats s.seat_id s, here, e)
  | inr apart ↦
      h k t
        (sym (get-put_ne p.all_seats s.seat_id k s (λ q. cc (apart, (eq_iff s.seat_id k).1 q))) ∙ e)
]

-- The reference, or the refreshed token, belongs to the same seat, and the queues stay.
record Takes (p : SeatPool) (s : Seat) (r : Reply × SeatPool) : Type 0 where
  keyed : IsKeyed p → IsKeyed r.1
  pools : r.1.pools ≡ p.pools
  own : (id : String) → (s.seat_id == id) ≡ false → hands_out id r.0 ≡ false

refresh_token-seat_id :
    (provider : Seat → Provided) (s : Seat) (now : ℕ)
    → (refresh_token provider s now ≡ none)
      ⊎ ((f : Seat) × (refresh_token provider s now ≡ some f) × (f.seat_id ≡ s.seat_id))
unfolding refresh_token
refresh_token-seat_id provider s now = go (provider s) refl
  where
    go :
        (a : Provided)
        → provider s ≡ a
        → (refresh_token provider s now ≡ none)
          ⊎ ((f : Seat) × (refresh_token provider s now ≡ some f) × (f.seat_id ≡ s.seat_id))
    go absent e = inl (rw (e, refresh_token) refl)
    go fails e = inl (rw (e, refresh_token) refl)
    go (gives token) e = elim (Bool-cases (is_empty token)) [
      | inl blank ↦ inl (rw (e, refresh_token, blank) refl)
      | inr full ↦ inr (
        record s { lease_expiry = now + s.token_lifetime; token = some token },
        rw (e, refresh_token, full) refl,
        refl,
      )
    ]

given-Takes : (p : SeatPool) (s f : Seat) → f.seat_id ≡ s.seat_id → Takes p s (seat f, set_seat p f)
unfolding hands_out set_seat
given-Takes p s f same = record {
  keyed = set_seat-IsKeyed p f;
  pools = refl;
  own = λ id apart. rw same apart;
}

take_seat-Takes :
    (provider : Seat → Provided) (p : SeatPool) (s : Seat) (now : ℕ)
    → Takes p s (take_seat provider p s now)
unfolding take_seat hands_out set_seat
take_seat-Takes provider p s now =
    let held : Seat = record s { ref_count = s.ref_count + 1 } in
    elim (Bool-cases (leb s.lease_expiry now)) [
      | inr good ↦ rw (good, take_seat) (given-Takes p s held refl)
      | inl old ↦ elim (refresh_token-seat_id provider held now) [
        | inl fail ↦
            rw (old, take_seat, fail)
              (record { keyed = set_seat-IsKeyed p held; pools = refl; own = λ id apart. refl })
        | inr (f, fresh, same) ↦ rw (old, take_seat, fresh) (given-Takes p s f same)
      ]
    ]

acquire-IsLost :
    (id : String) (r : Request) (p : SeatPool)
    → IsLost id p
    → let (answer, p') = acquire r.provider p r.tenant_id r.vendor r.now in
      (hands_out id answer ≡ false) × IsLost id p'
unfolding acquire queue_of hands_out
acquire-IsLost id r p l = elim (Option-cases (p.pools r.tenant_id r.vendor)) [
  | inl e ↦ rw (e, acquire) (refl, emptied)
  | inr ([], e) ↦ rw (e, acquire) (refl, emptied)
  | inr (x ∷ rest, e) ↦ taken x rest e (Option-cases (get p.all_seats x))
]
  where
    emptied : IsLost id (set_queue p r.tenant_id r.vendor [])
    emptied = record {
      keyed = unfold set_queue in l.keyed;
      nowhere = set_queue-nowhere id p r.tenant_id r.vendor [] refl λ t v q apart. l.nowhere t v q;
    }

    taken :
        (x : String) (rest : List String)
        → p.pools r.tenant_id r.vendor ≡ some (x ∷ rest)
        → (get p.all_seats x ≡ none) ⊎ ((s : Seat) × (get p.all_seats x ≡ some s))
        → let (answer, p') = acquire r.provider p r.tenant_id r.vendor r.now in
          (hands_out id answer ≡ false) × IsLost id p'
    taken x rest e (inl missing) = rw (e, acquire, missing) (refl, l)
    taken x rest e (inr (s, found)) =
        let away : member id (x ∷ rest) ≡ false = l.nowhere r.tenant_id r.vendor (x ∷ rest) e in
        let p' = set_queue p r.tenant_id r.vendor rest in
        let k = take_seat-Takes r.provider p' s r.now in
        rw (e, acquire, found)
          (
            k.own id (rw (l.keyed x s found) (ground arith)),
            record {
              keyed = k.keyed (unfold set_queue in l.keyed);
              nowhere = rw k.pools (
                  set_queue-nowhere id p r.tenant_id r.vendor rest (ground arith)
                    λ t v q apart. l.nowhere t v q);
            },
          )

acquires-IsLost :
    (id : String) (later : List Request) (p : SeatPool)
    → IsLost id p
    → All (λ a. hands_out id a ≡ false) (acquires later p)
unfolding acquires
acquires-IsLost id [] p l = tt
acquires-IsLost id (r ∷ rest) p l =
    let (other, l') = acquire-IsLost id r p l in
    (other, acquires-IsLost id rest (acquire r.provider p r.tenant_id r.vendor r.now).1 l')

-- In a pool whose seats stand under their ids, a seat that is the first of its queue and stands in
-- no queue a second time, and whose token has expired and cannot be refreshed, makes acquire
-- raise, and no later calls of acquire, for whichever tenants and vendors, at whatever times and
-- with whatever providers, hand that seat out.
pub failed_refresh_strands_seat :
    (provider : Seat → Provided) (p : SeatPool) (u : Seat) (rest : List String) (now : ℕ)
    (later : List Request)
    → IsKeyed p
    → IsFirst p u rest
    → u.lease_expiry ≤ now
    → refresh_token provider (record u { ref_count = u.ref_count + 1 }) now ≡ none
    → let (answer, p') = acquire provider p u.tenant_id u.vendor now in
      (answer ≡ runtime_error) × All (λ a. hands_out u.seat_id a ≡ false) (acquires later p')
unfolding acquire queue_of take_seat
failed_refresh_strands_seat provider p u rest now later h f old fail =
    let expired : leb u.lease_expiry now ≡ true = ground arith in
    let p' = set_queue p u.tenant_id u.vendor rest in
    let lost : IsLost u.seat_id (set_seat p' (record u { ref_count = u.ref_count + 1 })) = record {
      keyed =
          set_seat-IsKeyed p' (record u { ref_count = u.ref_count + 1 }) (unfold set_queue in h);
      nowhere =
          unfold set_seat in set_queue-nowhere u.seat_id p u.tenant_id u.vendor rest f.once f.only;
    } in
    rw (f.queue, acquire, f.known, take_seat, expired, fail)
      (refl, acquires-IsLost u.seat_id later _ lost)
