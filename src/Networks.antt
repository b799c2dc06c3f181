-- ===== src/Networks.antt =====
-- pkg/networks: nodes, network configurations and gas settings, from types.go.
pub mod Loader
pub mod Configs
pub mod Expansion
pub mod Placeholders
pub mod Files
pub mod Loading
mod Tests
use mezzium.Base.{Bool, Option, List}
use mezzium.Base.Int.{ℤ}
use mezzium.Text.{Str}
use mezzium.Dict.{Dict}

pub record Node : Type 0 where
  pub url : Str
  pub priority : ℤ
  pub headers : Dict Str
  pub tor : Bool

pub record GasConfig : Type 0 where
  pub external_url : Str
  pub min_priority_gwei : ℤ
  pub ttl_seconds : ℤ

pub record NetworkConfig : Type 0 where
  pub route : Str
  pub protocol : Str
  pub nodes : List Node
  pub timeout_ms : ℤ
  pub gas : Option GasConfig
