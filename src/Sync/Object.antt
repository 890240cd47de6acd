-- ===== src/Sync/Object.antt =====
-- JSON objects as the server handles them: what jsonb_build_object builds, what `||` merges and what
-- encoding/json reads back by key.
use vive_cserver.Base.{
  ℕ, String, ◌≡◌, Bool, Option, none, some, List, [], ◌∷◌, ◌++◌, arith, string_eq, refl,
}
use vive_cserver.Base.Int.{ℤ}
use vive_cserver.Base.Table.{Table, lookup}

pub data Value : Type 0 where
  null : Value
  num : ℤ → Value
  bool : Bool → Value
  text : String → Value
  float : ℕ → Value
  -- the base64 text of some bytes
  base64 : List ℕ → Value
  texts : List String → Value
  -- JSON text that this server does not look into
  opaque : String → Value

-- What a key means is its first entry.
abbrev pub Object : Type 0
Object = Table String Value

abbrev pub member : String → Object → Option Value
member = lookup

-- jsonb `a || b`: an entry of `b` hides the entry of `a` under the same key.
unfoldable pub merge : Object → Object → Object
merge a b = b ++ a

pub member-merge :
    (k : String) (a b : Object)
    → member k (merge a b) ≡ elim (member k b) [ none ↦ member k a | some v ↦ some v ]
unfolding merge lookup
member-merge k a [] = refl
member-merge k a ((j, v) ∷ b) = ground (arith, member-merge k a b)

-- A nullable bigint column.
abbrev pub num_or_null : Option ℤ → Value
num_or_null none = null
num_or_null (some t) = num t

abbrev pub text_or_null : Option String → Value
text_or_null none = null
text_or_null (some t) = text t

abbrev pub bool_or_null : Option Bool → Value
bool_or_null none = null
bool_or_null (some b) = bool b
