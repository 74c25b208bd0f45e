-- ===== src/Network/Sync.antt =====
-- crates/mosh-network/src/sender.rs: what the sender needs of a state and of the connection.
use rmosh.Prelude.{ℕ, Bool, Option, List}

-- The trait `SyncState`. `apply_string` yields the new state, or none for its error; `eq` is the
-- `==` of `PartialEq`.
pub record SyncState (S : Type 0) : Type 0 where
  pub subtract : S → S → S
  pub diff_from : S → S → List ℕ
  pub init_diff : S → List ℕ
  pub apply_string : S → List ℕ → Option S
  pub reset_input : S → S
  pub eq : S → S → Bool

-- The part of `Connection` that `TransportSender` calls.
pub record Link (F C : Type 0) : Type 0 where
  pub srtt : C → F
  pub timeout : C → ℕ
  pub has_remote_addr : C → Bool
  pub mtu : C → ℕ
  pub send : C → List ℕ → ℕ → C

-- The private `TimestampedState` of sender.rs and transport.rs.
pub record TimestampedState (S : Type 0) : Type 0 where
  pub timestamp : ℕ
  pub num : ℕ
  pub state : S
