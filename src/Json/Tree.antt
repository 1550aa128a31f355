-- ===== src/Json/Tree.antt =====
-- JSON values. A number keeps its text, and an object its members in order.
use incident_pilot.Common.{Bool, Option}
use incident_pilot.Text.{Bytes}

mutual
  pub data Json : Type 0 where
    null : Json
    bool : Bool → Json
    num : Bytes → Json
    str : Bytes → Json
    arr : Items → Json
    obj : Members → Json

  pub data Items : Type 0 where
    nil : Items
    cons : Json → Items → Items

  pub data Members : Type 0 where
    end : Members
    member : Bytes → Json → Members → Members

-- json.RawMessage
abbrev pub RawMessage : Type 0
RawMessage = Option Json
