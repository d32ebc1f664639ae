-- ===== src/Store/Reaches.antt =====
-- The states of internal/store/memory.go that its calls lead to from a state.
use password_manager.Prelude.Text.{Text}
use password_manager.Store.{Memory}
use password_manager.Store.Steps.{Call, step}
use password_manager.Store.Revocation.{IsRevoked, step-IsRevoked}
use password_manager.Store.WellFormed.{IsWellFormed}
use password_manager.Store.WellFormed.Runs.{step-IsWellFormed}

pub data Reaches : Memory → Memory → Type 0 where
  same : {m : Memory} → Reaches m m
  then_call : {m m' : Memory} (c : Call) → Reaches m m' → Reaches m (step c m')

pub Reaches-trans : {a b c : Memory} → Reaches a b → Reaches b c → Reaches a c
Reaches-trans r same = r
Reaches-trans r (then_call c s) = then_call c (Reaches-trans r s)

pub Reaches-IsRevoked :
    (id : Text) {m m' : Memory} → Reaches m m' → IsRevoked id m → IsRevoked id m'
Reaches-IsRevoked id same h = h
Reaches-IsRevoked id (then_call {m' = m'} c r) h = step-IsRevoked c id m' (Reaches-IsRevoked id r h)

pub Reaches-IsWellFormed : {m m' : Memory} → Reaches m m' → IsWellFormed m → IsWellFormed m'
Reaches-IsWellFormed same h = h
Reaches-IsWellFormed (then_call {m' = m'} c r) h = step-IsWellFormed c m' (Reaches-IsWellFormed r h)
