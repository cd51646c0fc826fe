-- ===== src/Config/Changes.antt =====
-- What a listener of a variable is told.
use sylar_leo.Base.{◌≡◌, Bool, false, List, [], ◌∷◌, ◌++◌}
use sylar_leo.Config.{ConfigVar, Callback, returned, caught, set_value}

-- Changes that follow one another from a value to a value, each to a value that is not equal.
pub data Chain {ℓ} {V : Type ℓ} (equal : V → V → Bool) : V → List (V × V) → V → Type ℓ where
  no_change : {v : V} → Chain equal v [] v
  change :
      {old_value new_value last : V} {more : List (V × V)}
      → equal new_value old_value ≡ false
      → Chain equal new_value more last
      → Chain equal old_value ((old_value, new_value) ∷ more) last

module _ {ℓ} {V : Type ℓ} (equal : V → V → Bool) where
  -- The listener that notes each call.
  abbrev pub note : Callback V (List (V × V))
  note old_value new_value w = returned (w ++ (old_value, new_value) ∷ [])

  abbrev pub State : Type ℓ
  State = ConfigVar V (List (V × V)) × List (V × V)

  abbrev pub set_each : List V → State → State
  set_each [] st = st
  set_each (v ∷ vs) st = set_each vs (caught (set_value equal v st))

  -- What the listener noted on the way from a value, behind `w`, in the state `st`.
  abbrev pub Noted : V → List (V × V) → State → Type ℓ
  Noted val w st = (calls : List (V × V)) × ((st.1 ≡ w ++ calls) × Chain equal val calls st.0.val)
