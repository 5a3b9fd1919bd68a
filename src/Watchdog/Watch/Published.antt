-- ===== src/Watchdog/Watch/Published.antt =====
-- The published changes of one agent.
use agentic_agnostic_orchest.Base.{
  ◌≡◌, refl, ap, String, false, List, [], ◌∷◌, ◌++◌, Bool-cases, inl, inr, filter, ◌==◌, eq_refl,
}
use agentic_agnostic_orchest.Watchdog.Agents.{Health}
use agentic_agnostic_orchest.Watchdog.Engine.{StateChange}
use agentic_agnostic_orchest.Watchdog.Engine.Routes.{Route, stays, moves}

-- The published changes of an agent, newest first
abbrev pub changes_of : String → List StateChange → List StateChange
changes_of id changes = filter (λ c. c.agent_id == id) changes

pub changes_of-append :
    (id : String) (xs ys : List StateChange)
    → changes_of id (xs ++ ys) ≡ changes_of id xs ++ changes_of id ys
changes_of-append id [] ys = refl
changes_of-append id (x ∷ xs) ys = elim (Bool-cases (x.agent_id == id)) [
  | inl own ↦ rw own (ap (λ l. x ∷ l) (changes_of-append id xs ys))
  | inr out ↦ rw out (changes_of-append id xs ys)
]

pub Route-own :
    (id : String) (a b : Health) (changes : List StateChange)
    → Route id a changes b
    → changes_of id changes ≡ changes
Route-own id a b changes (stays _) = refl
Route-own id a b changes (moves _ d _ reason rest q n e) = rw (eq_refl id) (
    ap (λ l. record { agent_id = id; previous = d; health = b; reason = reason } ∷ l)
      (Route-own id a d rest q))

pub Route-others :
    (id : String) (a b : Health) (changes : List StateChange)
    → Route id a changes b
    → (j : String) → (id == j) ≡ false
    → changes_of j changes ≡ []
Route-others id a b changes (stays _) j ne = refl
Route-others id a b changes (moves _ d _ reason rest q n e) j ne =
    rw ne (Route-others id a d rest q j ne)
