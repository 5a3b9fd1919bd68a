-- ===== src/Rotation/Detector.antt =====
-- control-plane/rotation/detector.py and trigger.py: from an event to an exhaustion signal. The compiled
-- patterns, the search for a reset hint and the reading of digits are parameters; the reset time is not
-- parsed.
use agentic_agnostic_orchest.Base.{
  ℕ, zero, String, Bool, true, false, not, ◌||◌, Option, none, some, List, [], ◌∷◌, Dict, get, eqb,
  lower, is_empty, ◌==◌, if◌then◌else◌,
}
use agentic_agnostic_orchest.Base.Int.{ℤ, pos, negsuc}

pub record ExhaustionSignal : Type 0 where
  pub exhausted : Bool
  pub vendor : String
  pub reset_hint : Option String
  pub is_server_overload : Bool
  pub raw : Option String

-- A value of a serialized event. A Boolean is a number; `other` is any other value, with its truth.
mutual
  pub data Value : Type 0 where
    text : String → Value
    number : ℤ → Value
    mapping : Fields → Value
    other : Bool → Value

  pub data Fields : Type 0 where
    nil : Fields
    field : String → Value → Fields → Fields

-- `m.get(key)`
unfoldable pub get_field : Fields → String → Option Value
get_field nil key = none
get_field (field k v rest) key =
    let later = get_field rest key in if k == key then some v else later

-- Python's truth of a value that may be None
unfoldable pub is_true : Option Value → Bool
is_true none = false
is_true (some (text s)) = not (is_empty s)
is_true (some (number (pos zero))) = false
is_true (some (number z)) = true
is_true (some (mapping nil)) = false
is_true (some (mapping (field k v rest))) = true
is_true (some (other b)) = b

-- The mapping under a key, if there is one
unfoldable pub sub_mapping : Fields → String → Option Fields
unfolding get_field
sub_mapping m key = elim (get_field m key) [ some (mapping f) ↦ some f | _ ↦ none ]

-- What `isdigit` and `int` make of a text: it is no row of digits, int refuses it, or it is a number.
pub data Digits : Type 0 where
  not_digits : Digits
  refused : Digits
  digits : ℕ → Digits

-- A status code: there is none, it is a number, or its text raises a ValueError.
pub data Code : Type 0 where
  absent : Code
  status : ℤ → Code
  value_error : Code

module _ (read_digits : String → Digits) where
  unfoldable pub as_code : Option Value → Code
  as_code (some (number z)) = status z
  as_code (some (text s)) = elim (read_digits s) [
    | not_digits ↦ absent
    | refused ↦ value_error
    | digits n ↦ status (pos n)
  ]
  as_code _ = absent

  -- `source.get("status_code") or source.get("http_status")`
  unfoldable pub code_of : Fields → Code
  unfolding as_code is_true get_field
  code_of source =
      if is_true (get_field source "status_code")
      then as_code (get_field source "status_code")
      else as_code (get_field source "http_status")

  -- `_status_code`: the details first, then their queue.
  unfoldable pub status_code : Fields → Code
  unfolding code_of sub_mapping
  status_code event = elim (sub_mapping event "details") [
    | none ↦ absent
    | some details ↦ elim (code_of details) [
      | status z ↦ status z
      | value_error ↦ value_error
      | absent ↦ elim (sub_mapping details "queue") [ none ↦ absent | some queue ↦ code_of queue ]
    ]
  ]

-- The texts under the keys, each followed by the rest
unfoldable pub texts : Fields → List String → List String → List String
unfolding get_field
texts m [] rest = rest
texts m (key ∷ keys) rest =
    let later = texts m keys rest in
    elim (get_field m key) [ some (text s) ↦ s ∷ later | _ ↦ later ]

-- `sep.join(parts)`; `append` is `+` on strings.
unfoldable pub append : String → String → String
append String.[] t = t
append (String.◌∷◌ c s) t = String.◌∷◌ c (append s t)

unfoldable pub join : String → List String → String
unfolding append
join sep [] = ""
join sep (p ∷ []) = p
join sep (p ∷ q ∷ parts) = append p (append sep (join sep (q ∷ parts)))

abbrev pub newline : String
newline = "\n"

-- `_collect_text`
unfoldable pub collect_text : Fields → String
unfolding texts sub_mapping join
collect_text event =
    let detail_keys : List String =
      "pane_text" ∷ "output" ∷ "stdout" ∷ "error" ∷ "message" ∷ "reason" ∷ [] in
    let queue_keys : List String = "state" ∷ "status" ∷ "error" ∷ "message" ∷ "detail" ∷ [] in
    let parts : List String = elim (sub_mapping event "details") [
      | none ↦ []
      | some details ↦ texts details detail_keys (elim (sub_mapping details "queue") [
        | none ↦ []
        | some queue ↦ texts queue queue_keys []
      ])
    ] in
    join newline (texts event ("message" ∷ []) parts)

unfoldable pub is_code : ℤ → ℕ → Bool
is_code (pos n) c = eqb n c
is_code (negsuc n) c = false

-- A signal with only its vendor
unfoldable pub quiet : String → Option String → ExhaustionSignal
quiet vendor raw = record {
  exhausted = false;
  vendor = vendor;
  reset_hint = none;
  is_server_overload = false;
  raw = raw;
}

unfoldable pub detect_status_code : String → ℤ → ExhaustionSignal
unfolding quiet is_code
detect_status_code vendor c =
    if is_code c 429
    then record (quiet vendor none) { exhausted = true }
    else if is_code c 503
    then record (quiet vendor none) { is_server_overload = true }
    else quiet vendor none

module _ {Pattern : Type 0} (search : Pattern → String → Bool) (reset_at : String → Option String)
    (patterns : Dict Pattern) where
  unfoldable pub found : String → String → ExhaustionSignal
  found vendor t = record {
    exhausted = true;
    vendor = vendor;
    reset_hint = reset_at t;
    is_server_overload = false;
    raw = some t;
  }

  unfoldable pub detect_text : String → String → ExhaustionSignal
  unfolding found quiet get lower
  detect_text vendor t = elim (get patterns (lower vendor)) [
    | none ↦ quiet vendor (some t)
    | some p ↦ if search p t then found vendor t else quiet vendor (some t)
  ]

  -- The loop of `detect_any`
  unfoldable pub detect_first : Dict Pattern → String → ExhaustionSignal
  unfolding found quiet
  detect_first [] t = quiet "" (some t)
  detect_first ((vendor, p) ∷ rest) t =
      let later = detect_first rest t in if search p t then found vendor t else later

  unfoldable pub detect_any : String → ExhaustionSignal
  unfolding detect_first
  detect_any t = detect_first patterns t

  -- `exhaustion_from_event` behind the status code; the empty vendor stands for None.
  unfoldable pub from_text : Fields → String → ExhaustionSignal
  unfolding detect_text detect_any collect_text quiet
  from_text event vendor =
      let t = collect_text event in
      if is_empty t
      then quiet vendor none
      else if is_empty vendor
      then detect_any t
      else detect_text vendor t

  -- `none` is the ValueError of a status code.
  unfoldable pub exhaustion_from_event :
      (String → Digits) → Fields → String → Option ExhaustionSignal
  unfolding from_text detect_status_code status_code
  exhaustion_from_event read_digits event vendor = elim (status_code read_digits event) [
    | value_error ↦ none
    | absent ↦ some (from_text event vendor)
    | status c ↦
        let signal = detect_status_code vendor c in
        if signal.exhausted || signal.is_server_overload
        then some signal
        else some (from_text event vendor)
  ]
