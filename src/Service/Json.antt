-- ===== src/Service/Json.antt =====
-- What JSON.parse returns: an object's keys are all different.
use Prim.Native.String.{String}
use text.Mathlib.Text.{◌==◌ as str_eq}
use teacher_assistant.Base.{Bool, List, [], ◌∷◌, Option, none, some, if◌then◌else◌}

mutual
  pub data Json : Type 0 where
    null : Json
    boolean : Bool → Json
    number : String → Json
    string : String → Json
    array : Items → Json
    object : Fields → Json

  pub data Items : Type 0 where
    no_items : Items
    item : Json → Items → Items

  pub data Fields : Type 0 where
    no_fields : Fields
    field : String → Json → Fields → Fields

unfoldable pub items : Items → List Json
items no_items = []
items (item v vs) = v ∷ items vs

unfoldable pub keys : Fields → List String
keys no_fields = []
keys (field k v fs) = k ∷ keys fs

unfoldable pub property : String → Fields → Option Json
property k no_fields = none
property k (field j v fs) = if str_eq j k then some v else property k fs
