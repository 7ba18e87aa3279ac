-- ===== src/Host/Iptables.antt =====
-- The go-iptables package, on the chain FORWARD of the table filter.
use tenant_cni.Base.{Option, Text, ℕ}
use tenant_cni.Host.{Cmd}

pub data Target : Type 0 where
  accept drop_packet : Target

-- `-i`, `-s`, `-d` and `-j`; an option of none is not given.
pub record Rule : Type 0 where
  pub in_interface : Option Text
  pub source : Option Text
  pub destination : Option Text
  pub target : Target

pub record Iptables (W : Type 0) : Type 0 where
  -- `NewWithProtocol(ProtocolIPv4)`
  pub new_iptables : Cmd W (Unit {0})
  pub append_unique : Rule → Cmd W (Unit {0})
  -- `InsertUnique` at a position counted from 1
  pub insert_unique : ℕ → Rule → Cmd W (Unit {0})
