-- ===== src/Rogo/Json.antt =====
-- Values that `json.loads` returns and `json.dumps` takes, and Python dictionaries of them.
use radio_robot_lib.Prelude.{Bool, Option, none, some, String, if◌then◌else◌}
use radio_robot_lib.Prelude.Int.{ℤ}
use text.Mathlib.Text.{◌==◌}

mutual
  pub data Json : Type 0 where
    null : Json
    bool : Bool → Json
    int : ℤ → Json
    float : String → Json
    str : String → Json
    arr : Items → Json
    obj : Object → Json

  pub data Items : Type 0 where
    nil : Items
    cons : Json → Items → Items

  -- A dictionary, in insertion order.
  pub data Object : Type 0 where
    empty : Object
    entry : String → Json → Object → Object

-- `data.get(key)`; `none` where the key is not there.
unfoldable pub get : String → Object → Option Json
get key empty = none
get key (entry k v rest) = if k == key then some v else get key rest

-- `data.get(key, default)`
unfoldable pub get_or : String → Json → Object → Json
get_or key fallback data_ = elim (get key data_) [ none ↦ fallback | some v ↦ v ]
