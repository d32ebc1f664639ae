-- ===== src/App/Uses.antt =====
-- UseFetch and UseFetchSession of internal/app/app.go: a call of the broker over the store in memory.
use password_manager.Prelude.{ℕ, Bool, some, [], Result}
use password_manager.Prelude.Text.{Text}
use password_manager.Protocol.{Principal, zero_principal, Fetch, fetch, UseRequest}
use password_manager.Store.{Memory}
use password_manager.Broker.{Libraries, Answer, use_call, use_session}
use password_manager.Broker.Calls.{World}
use password_manager.Broker.OnMemory.{Outside, on_memory}
use password_manager.App.{Toolbox}

abbrev pub libraries_of : Toolbox → Libraries
libraries_of box = record { urls = box.urls; codecs = box.codecs }

-- The caller is known by its id alone.
abbrev pub caller_of : Text → Principal
caller_of id = record zero_principal { id = id }

abbrev pub fetch_request : Text → Fetch → UseRequest
fetch_request item_id f = record { item_id = item_id; action = fetch; fetch = some f }

abbrev pub from_store : (out : Outside) → Memory → World (on_memory out)
from_store out m = record { state = m; past = [] }

module _ (box : Toolbox) (out : Outside) (full : Bool) where
  unfoldable pub use_fetch :
      Text → Text → Fetch → ℕ → Memory → Result Answer × World (on_memory out)
  use_fetch agent_id item_id f now m =
      use_call (libraries_of box) (on_memory out) full (caller_of agent_id)
        (fetch_request item_id f) now (from_store out m)

  unfoldable pub use_fetch_session :
      Text → Text → Fetch → ℕ → Memory → Result Answer × World (on_memory out)
  use_fetch_session raw_token item_id f now m =
      use_session (libraries_of box) (on_memory out) full (box.sha256 raw_token)
        (fetch_request item_id f) now (from_store out m)
