-- ===== src/Vmap.antt =====
-- Package github.com/456vv/vmap, whose Map holds the sessions of a site and the servers of a group. It
-- is a parameter of the model.
pub mod Assoc
use vweb.Common.{◌≡◌, Option, none, some, List, Bytes, same, lookup, All, if◌then◌else◌}

-- vmap.Map with keys that are identifiers; `entries` is what Range visits, in some order.
pub record VMap (V : Type 0) : Type 1 where
  pub Map : Type 0
  pub empty : Map
  pub get_has : Map → Bytes → Option V
  pub set : Map → Bytes → V → Map
  pub del : Map → Bytes → Map
  pub entries : Map → List (Bytes × V)

-- What the program relies on: `entries` holds each key with its value.
pub record IsMap {V : Type 0} (lib : VMap V) : Type 0 where
  pub get_has-empty : (j : Bytes) → lib.get_has lib.empty j ≡ none
  pub get_has-set :
      (m : lib.Map) (k j : Bytes) (v : V)
      → lib.get_has (lib.set m k v) j ≡ (if same k j then some v else lib.get_has m j)
  pub get_has-del :
      (m : lib.Map) (k j : Bytes)
      → lib.get_has (lib.del m k) j ≡ (if same k j then none else lib.get_has m j)
  pub entries-sound : (m : lib.Map) → All (λ e. lib.get_has m e.0 ≡ some e.1) (lib.entries m)
  pub entries-lookup : (m : lib.Map) (k : Bytes) → lookup k (lib.entries m) ≡ lib.get_has m k
