-- ===== src/Seats/Examples.antt =====
-- The theorems on seats at a concrete pool: one seat whose token is good until 100.
use agentic_agnostic_orchest.Base.{
  ℕ, ◌≡◌, refl, String, none, some, List, [], ◌∷◌, get, arith, if◌then◌else◌, ◌==◌, ◌&&◌, false,
  All, Bool-cases, inl, inr, eq_iff,
}
use agentic_agnostic_orchest.Seats.Pool.{
  Seat, SeatPool, Provided, absent, gives, seat, released, runtime_error, refresh_token,
  acquire_subagent, release, acquire,
}
use agentic_agnostic_orchest.Seats.Pool.Exclusive.{
  subagent_leaves_no_trace, extra_release_shares_seat, acquire-release,
}
use agentic_agnostic_orchest.Seats.Pool.Stranded.{
  Request, acquires, hands_out, IsKeyed, IsFirst, failed_refresh_strands_seat,
}

abbrev counted : ℕ → ℕ → Seat
counted n until = record {
  seat_id = "s";
  tenant_id = "acme";
  vendor = "codex";
  home_dir = "h";
  ref_count = n;
  token_lifetime = 60;
  lease_expiry = until;
  token = some "t";
}

-- The pool of one seat, with its queue
abbrev pool_of : Seat → List String → SeatPool
pool_of u q = record { pools = λ t v. some q; all_seats = ("s", u) ∷ [] }

-- No seat has a provider.
abbrev no_provider : Seat → Provided
no_provider u = absent

there : (u : Seat) (q : List String) → get (pool_of u q).all_seats "s" ≡ some u
unfolding get
there u q = refl

refuses : refresh_token no_provider (counted 1 100) 200 ≡ none
unfolding refresh_token
refuses = refl

subagent_leaves_no_trace_example :
    let p' = (release (acquire_subagent (pool_of (counted 1 100) []) "s").1 "s").1 in
    (get p'.all_seats "s" ≡ some (counted 1 100)) × ((t v : String) → p'.pools t v ≡ some [])
subagent_leaves_no_trace_example =
    subagent_leaves_no_trace (pool_of (counted 1 100) []) (counted 1 100) 0
      (there (counted 1 100) []) refl

acquire-release_example :
    let (answer, p₁) =
      acquire no_provider (pool_of (counted 0 100) ("s" ∷ "z" ∷ [])) "acme" "codex" 5 in
    let (end_answer, p₂) = release p₁ "s" in
    (answer ≡ seat (counted 1 100))
    × (p₁.pools "acme" "codex" ≡ some ("z" ∷ []))
    × (end_answer ≡ released)
    × (p₂.pools "acme" "codex" ≡ some ("z" ∷ "s" ∷ []))
    × (get p₂.all_seats "s" ≡ some (counted 0 100))
acquire-release_example =
    acquire-release no_provider (pool_of (counted 0 100) ("s" ∷ "z" ∷ [])) (counted 0 100)
      ("z" ∷ []) 5 (there (counted 0 100) ("s" ∷ "z" ∷ [])) refl refl (omega arith)

extra_release_shares_seat_example :
    let p₁ = (release (pool_of (counted 0 100) ("s" ∷ [])) "s").1 in
    let (first_answer, p₂) = acquire no_provider p₁ "acme" "codex" 5 in
    let (second_answer, p₃) = acquire no_provider p₂ "acme" "codex" 5 in
    (first_answer ≡ seat (counted 1 100)) × (second_answer ≡ seat (counted 2 100))
extra_release_shares_seat_example =
    extra_release_shares_seat no_provider (pool_of (counted 0 100) ("s" ∷ [])) (counted 0 100) 5
      (there (counted 0 100) ("s" ∷ [])) refl refl (omega arith)

-- The pool of that seat, before its refresh fails
abbrev stale_pool : SeatPool
stale_pool = record {
  pools = λ t v. if ("acme" == t) && ("codex" == v) then some ("s" ∷ []) else none;
  all_seats = ("s", counted 0 100) ∷ [];
}

stale_pool-IsKeyed : IsKeyed stale_pool
unfolding get
stale_pool-IsKeyed k u e = elim (Bool-cases ("s" == k)) [
  | inl same ↦
      let e' : some (counted 0 100) ≡ some u = rw same at e in cc (e', (eq_iff "s" k).0 same)
  | inr apart ↦ absurd (cc (rw apart at e))
]

stale_pool-IsFirst : IsFirst stale_pool (counted 0 100) []
unfolding get
stale_pool-IsFirst = record {
  known = refl;
  queue = refl;
  once = refl;
  only = λ t v q apart e. absurd (cc (rw apart at e));
}

-- A provider that is back.
abbrev back : Seat → Provided
back u = gives "new"

abbrev later : List Request
later =
    record { provider = no_provider; tenant_id = "acme"; vendor = "codex"; now = 300 }
    ∷ record { provider = back; tenant_id = "acme"; vendor = "codex"; now = 400 }
    ∷ []

failed_refresh_strands_seat_example :
    let (answer, p') = acquire no_provider stale_pool "acme" "codex" 200 in
    (answer ≡ runtime_error) × All (λ a. hands_out "s" a ≡ false) (acquires later p')
failed_refresh_strands_seat_example =
    failed_refresh_strands_seat no_provider stale_pool (counted 0 100) [] 200 later
      stale_pool-IsKeyed stale_pool-IsFirst (omega arith) refuses
