-- ===== src/Base/Dictionary.antt =====
-- Python's `dict` with string keys, as an association list in insertion order.
use Prim.Native.String.{String}
use mathlib.Core.Path.{◌≡◌, refl}
use mathlib.Core.Logic.{◌≢◌, inl, inr}
use mathlib.Core.Bool.{Bool, false}
use mathlib.Core.List.{List, [], ◌∷◌, map}
use mathlib.Core.Option.{Option, none, some}
use native.Mathlib.Omega.{arith}
use text.Mathlib.Text.{◌==◌}
use text.Mathlib.TextEquality.{eq_iff}
use agentic_agnostic_orchest.Base.Tests.{if◌then◌else◌, is_some, Bool-cases}
use agentic_agnostic_orchest.Base.Lists.{Among}

abbrev pub Dict {ℓ} : Type ℓ → Type ℓ
Dict V = List (String × V)

module _ {ℓ} {V : Type ℓ} where
  -- `d.get(k)`
  unfoldable pub get : Dict V → String → Option V
  get [] k = none
  get ((j, v) ∷ d) k = if j == k then some v else get d k

  -- `d[k] = v`: a present key keeps its place.
  unfoldable pub put : Dict V → String → V → Dict V
  put [] k v = (k, v) ∷ []
  put ((j, w) ∷ d) k v = if j == k then (k, v) ∷ d else (j, w) ∷ put d k v

  -- `d.pop(k, None)`
  unfoldable pub pop : Dict V → String → Dict V
  pop [] k = []
  pop ((j, w) ∷ d) k = if j == k then pop d k else (j, w) ∷ pop d k

  -- `k in d`
  unfoldable pub contains : Dict V → String → Bool
  unfolding get
  contains d k = is_some (get d k)

  unfoldable pub dict_keys : Dict V → List String
  dict_keys d = map (λ e. e.0) d

  unfoldable pub dict_values : Dict V → List V
  dict_values d = map (λ e. e.1) d

  pub get-put :
      (d : Dict V) (k j : String) (v : V) → get (put d k v) j ≡ (if k == j then some v else get d j)
  unfolding get put
  get-put [] k j v = refl
  get-put ((i, w) ∷ d) k j v = ground (arith, eq_iff k j, eq_iff i k, eq_iff i j, get-put d k j v)

  pub get-pop : (d : Dict V) (k j : String) → get (pop d k) j ≡ (if k == j then none else get d j)
  unfolding get pop
  get-pop [] k j = ground arith
  get-pop ((i, w) ∷ d) k j = ground (arith, eq_iff k j, eq_iff i k, eq_iff i j, get-pop d k j)

  pub get-put_self : (d : Dict V) (k : String) (v : V) → get (put d k v) k ≡ some v
  get-put_self d k v = ground (arith, get-put d k k v, eq_iff k k)

  pub get-put_ne : (d : Dict V) (k j : String) (v : V) → k ≢ j → get (put d k v) j ≡ get d j
  get-put_ne d k j v h = ground (arith, get-put d k j v, eq_iff k j)

  pub get-pop_self : (d : Dict V) (k : String) → get (pop d k) k ≡ none
  get-pop_self d k = ground (arith, get-pop d k k, eq_iff k k)

  pub get-pop_ne : (d : Dict V) (k j : String) → k ≢ j → get (pop d k) j ≡ get d j
  get-pop_ne d k j h = ground (arith, get-pop d k j, eq_iff k j)

  pub contains_lem : (d : Dict V) (k : String) → contains d k ≡ is_some (get d k)
  unfolding contains
  contains_lem d k = refl

  pub get-contains : (d : Dict V) (k : String) → contains d k ≡ false → get d k ≡ none
  unfolding contains
  get-contains d k h = ground arith

  -- Each key stands once.
  abbrev pub IsUnique : Dict V → Type ℓ
  IsUnique [] = Unit
  IsUnique ((k, v) ∷ d) = (get d k ≡ none) × IsUnique d

  pub put-IsUnique : (d : Dict V) (k : String) (v : V) → IsUnique d → IsUnique (put d k v)
  unfolding get put
  put-IsUnique [] k v u = (refl, tt)
  put-IsUnique ((j, w) ∷ d) k v u =
      ground (arith, put-IsUnique d k v u.1, get-put d k j v, eq_iff j k, eq_iff k j)

  pub pop-IsUnique : (d : Dict V) (k : String) → IsUnique d → IsUnique (pop d k)
  unfolding get pop
  pop-IsUnique [] k u = tt
  pop-IsUnique ((j, w) ∷ d) k u =
      ground (arith, pop-IsUnique d k u.1, get-pop d k j, eq_iff j k, eq_iff k j)

pub Among-get :
    {V : Type 0} (v : V) (d : Dict V)
    → IsUnique d
    → Among v (dict_values d)
    → (k : String) × (get d k ≡ some v)
unfolding get dict_values
Among-get v [] u m = absurd m
Among-get v ((k, w) ∷ d) u (inl e) = (k, rw ((eq_iff k k).1 refl, e) refl)
Among-get v ((k, w) ∷ d) u (inr m) =
    let (j, e) = Among-get v d u.1 m in (j, ground (arith, eq_iff k j, e, u.0))

pub get-Among :
    {V : Type 0} (v : V) (d : Dict V) (k : String) → get d k ≡ some v → Among v (dict_values d)
unfolding get dict_values
get-Among v [] k h = absurd (cc h)
get-Among v ((j, w) ∷ d) k h = elim (Bool-cases (j == k)) [
  | inl same ↦ inl (ground (arith, h, same))
  | inr other ↦ inr (get-Among v d k (ground (arith, h, other)))
]
