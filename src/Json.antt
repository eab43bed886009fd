-- ===== src/Json.antt =====
-- JSON values, for pkg/license/strictjson.go and canonical.go. A number or another scalar that is not a string
-- is the text that encoding/json has for it.
pub mod Canonical
pub mod Strict
use grantseal.Prelude.{Bytes}

mutual
  pub data Json : Type 0 where
    scalar : Bytes → Json
    text : Bytes → Json
    array : Items → Json
    object : Members → Json

  pub data Items : Type 0 where
    nil : Items
    cons : Json → Items → Items

  pub data Members : Type 0 where
    end : Members
    member : Bytes → Json → Members → Members
