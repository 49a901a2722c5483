-- ===== src/Common/Connection/Recovery.antt =====
-- A connection that was lost comes back once the server answers.
use nacos_sdk_nodejs.Prelude.{ℕ, ◌≤◌, ◌≡◌, true, List, length, All}
use nacos_sdk_nodejs.Common.Connection.{Options, Connection}
use nacos_sdk_nodejs.Common.Connection.Inputs.{Input, run}
use nacos_sdk_nodejs.Common.Connection.Retrying.{NotClose}

-- At most `n` answers lead to a connection.
abbrev pub Reconnects : Options → ℕ → Connection → Type 0
Reconnects o n c =
    (is : List Input) × All NotClose is × (length is ≤ n) × ((run o is c).is_connected ≡ true)
