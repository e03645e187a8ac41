-- ===== src/Base/Json.antt =====
-- A value of type `unknown` that came from JSON. A number is kept by its spelling.
use mathlib.Core.Bool.{Bool, true, false}
use la_muni_rag.Base.Text.{Text}

mutual
  pub data Json : Type 0 where
    null : Json
    bool : Bool → Json
    number : Text → Json
    string : Text → Json
    array : Items → Json
    object : Members → Json

  pub data Items : Type 0 where
    nil : Items
    item : Json → Items → Items

  pub data Members : Type 0 where
    end : Members
    member : Text → Json → Members → Members

-- `value && typeof value === "object" && !Array.isArray(value)`.
unfoldable pub is_object : Json → Bool
is_object (object ms) = true
is_object _ = false
