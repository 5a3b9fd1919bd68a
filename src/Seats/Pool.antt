-- ===== src/Seats/Pool.antt =====
-- control-plane/seats/pool.py: `Seat` and `SeatPool`. Seats are objects that the pool and its callers
-- share, so that a store holds them under their ids; a queue holds ids. A call of `acquire` on an empty
-- queue waits, which is an answer of its own here.
pub mod Exclusive
pub mod Stranded
use agentic_agnostic_orchest.Base.{
  ℕ, zero, suc, ◌+◌, ◌-◌, String, Bool, true, false, ◌&&◌, Option, none, some, List, [], ◌∷◌, ◌++◌,
  Dict, get, put, get_or, leb, eqb, is_empty, ◌==◌, if◌then◌else◌,
}

pub record Seat : Type 0 where
  pub seat_id : String
  pub tenant_id : String
  pub vendor : String
  pub home_dir : String
  pub ref_count : ℕ
  pub token_lifetime : ℕ
  pub lease_expiry : ℕ
  pub token : Option String

-- `Seat.__init__` at the time `now`
unfoldable pub new_seat : String → String → String → String → ℕ → Option String → ℕ → Seat
new_seat seat_id tenant_id vendor home_dir token_lifetime token now = record {
  seat_id = seat_id;
  tenant_id = tenant_id;
  vendor = vendor;
  home_dir = home_dir;
  ref_count = 0;
  token_lifetime = token_lifetime;
  lease_expiry = if is_empty (get_or token "") then 0 else now + token_lifetime;
  token = token;
}

-- `get_env`
unfoldable pub get_env : Seat → Dict String
get_env s =
    ("HOME", s.home_dir)
    ∷ ("SEAT_ID", s.seat_id)
    ∷ ("VENDOR", s.vendor)
    ∷ ("TENANT_ID", s.tenant_id)
    ∷ ("SEAT_TOKEN", get_or s.token "")
    ∷ []

-- What a seat's token provider does: there is none, it raises, or it answers.
pub data Provided : Type 0 where
  absent : Provided
  fails : Provided
  gives : String → Provided

-- `Seat.release`, with `ref_count == 0`
unfoldable pub drop_reference : Seat → Seat
drop_reference s = record s { ref_count = s.ref_count - 1 }

pub record SeatPool : Type 0 where
  pub pools : String → String → Option (List String)
  pub all_seats : Dict Seat

unfoldable pub new_pool : SeatPool
new_pool = record { pools = λ t v. none; all_seats = [] }

-- `self.pools[key] = queue`
unfoldable pub set_queue : SeatPool → String → String → List String → SeatPool
set_queue p tenant vendor q = record p {
  pools = λ t v. if (tenant == t) && (vendor == v) then some q else p.pools t v;
}

-- The queue under a key, which `register_seat` and `acquire` create
unfoldable pub queue_of : SeatPool → String → String → List String
queue_of p tenant vendor = get_or (p.pools tenant vendor) []

unfoldable pub set_seat : SeatPool → Seat → SeatPool
set_seat p s = record p { all_seats = put p.all_seats s.seat_id s }

unfoldable pub register_seat : SeatPool → Seat → SeatPool
unfolding set_queue queue_of set_seat
register_seat p s =
    set_seat (set_queue p s.tenant_id s.vendor (queue_of p s.tenant_id s.vendor ++ s.seat_id ∷ []))
      s

-- How a method ends.
pub data Reply : Type 0 where
  seat : Seat → Reply
  waits : Reply
  released : Reply
  runtime_error : Reply
  key_error : Reply

unfoldable pub acquire_subagent : SeatPool → String → Reply × SeatPool
unfolding set_seat
acquire_subagent p id = elim (get p.all_seats id) [
  | none ↦ (key_error, p)
  | some s ↦
      if leb s.ref_count 0
      then (runtime_error, p)
      else (let s' : Seat = record s { ref_count = s.ref_count + 1 } in (seat s', set_seat p s'))
]

unfoldable pub release : SeatPool → String → Reply × SeatPool
unfolding drop_reference set_queue set_seat
release p id = elim (get p.all_seats id) [
  | none ↦ (key_error, p)
  | some s ↦
      let s' = drop_reference s in
      let p' = set_seat p s' in
      if eqb s'.ref_count 0
      then (elim (p.pools s.tenant_id s.vendor) [
        | none ↦ (key_error, p')
        | some q ↦ (released, set_queue p' s.tenant_id s.vendor (q ++ id ∷ []))
      ])
      else (released, p')
]

-- `provider` is the provider of each seat.
module _ (provider : Seat → Provided) where
  -- `refresh_token`; `none` is an exception.
  unfoldable pub refresh_token : Seat → ℕ → Option Seat
  refresh_token s now = elim (provider s) [
    | absent ↦ none
    | fails ↦ none
    | gives token ↦
        if is_empty token
        then none
        else some (record s { lease_expiry = now + s.token_lifetime; token = some token })
  ]

  -- `acquire` behind `get`: the reference is taken before the token is refreshed.
  unfoldable pub take_seat : SeatPool → Seat → ℕ → Reply × SeatPool
  unfolding refresh_token set_seat
  take_seat p s now =
      let held : Seat = record s { ref_count = s.ref_count + 1 } in
      if leb s.lease_expiry now
      then elim (refresh_token held now) [
        | none ↦ (runtime_error, set_seat p held)
        | some fresh ↦ (seat fresh, set_seat p fresh)
      ]
      else (seat held, set_seat p held)

  unfoldable pub acquire : SeatPool → String → String → ℕ → Reply × SeatPool
  unfolding take_seat queue_of set_queue
  acquire p tenant vendor now = elim (queue_of p tenant vendor) [
    | [] ↦ (waits, set_queue p tenant vendor [])
    | id ∷ rest ↦ elim (get p.all_seats id) [
      | none ↦ (key_error, p)
      | some s ↦ take_seat (set_queue p tenant vendor rest) s now
    ]
  ]
