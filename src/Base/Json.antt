-- ===== src/Base/Json.antt =====
-- A parsed JSON value, as `JSON.parse` gives it.
use sentinel_project.Base.{Bool, Option, String, if◌then◌else◌, nat_eq, none, some, string_eq, ◌==◌}
use sentinel_project.Base.Number.{Number}

mutual
  pub data Json : Type 0 where
    null : Json
    bool : Bool → Json
    number : Number → Json
    str : String → Json
    arr : Items → Json
    obj : Fields → Json

  pub data Items : Type 0 where
    nil : Items
    cons : Json → Items → Items

  pub data Fields : Type 0 where
    end : Fields
    field : String → Json → Fields → Fields

-- The value of a key, the last one given: `none` is `undefined`.
unfoldable pub lookup : String → Fields → Option Json
lookup k end = none
lookup k (field j v fs) = elim (lookup k fs) [
  | some w ↦ some w
  | none ↦ if j == k then some v else none
]
