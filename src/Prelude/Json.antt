-- ===== src/Prelude/Json.antt =====
-- A value of type `unknown`: what `JSON.parse` and the HTTP framework hand over.
use mathlib.Core.Bool.{Bool, true, false}
use mathlib.Core.Option.{Option, none, some}
use mathlib.Core.List.{List, [], ◌∷◌}
use credentials_issuer.Prelude.Tests.{if◌then◌else◌}
use credentials_issuer.Prelude.Texts.{Str, ◌===◌}

-- A number keeps its literal: no code here computes with a number of a body.
mutual
  pub data Json : Type 0 where
    null : Json
    boolean : Bool → Json
    number : Str → Json
    str : Str → Json
    arr : Items → Json
    obj : Fields → Json

  pub data Items : Type 0 where
    nil : Items
    cons : Json → Items → Items

  pub data Fields : Type 0 where
    end : Fields
    field : Str → Json → Fields → Fields

abbrev pub items : Items → List Json
items nil = []
items (cons v vs) = v ∷ items vs

abbrev pub from_list : List Json → Items
from_list [] = nil
from_list (v ∷ vs) = cons v (from_list vs)

unfoldable pub lookup_field : Str → Fields → Option Json
lookup_field k end = none
lookup_field k (field j v fs) = if j === k then some v else lookup_field k fs

-- `typeof v === 'object' && v !== null`: an array passes too.
abbrev pub is_object : Json → Bool
is_object (arr vs) = true
is_object (obj fs) = true
is_object _ = false

-- `v.k`, where `none` is `undefined`; an array has none of the properties that the code reads.
abbrev pub get : Json → Str → Option Json
get (obj fs) k = lookup_field k fs
get _ k = none
