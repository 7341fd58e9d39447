-- ===== src/Storage.antt =====
-- ui/src/lib/storage.ts: guarded access to the two areas of Web Storage.
pub mod Laws
use Prim.Native.String.{String}
use text.Mathlib.Text.{◌==◌}
use kiro_reverse_api.Prelude.{
  Bool, true, false, List, [], ◌∷◌, Option, none, some, if◌then◌else◌, ◌&&◌,
}
use kiro_reverse_api.Text.{Text}

pub data StorageArea : Type 0 where
  local session : StorageArea

-- One `Storage` object. `available` says that neither its accessor nor its methods throw;
-- `accepts` says for which contents, key and value `setItem` stays within the quota.
pub record Area : Type 0 where
  pub items : List (String × Text)
  pub available : Bool
  pub accepts : List (String × Text) → String → Text → Bool

-- What `window` gives access to.
pub record Browser : Type 0 where
  pub local_area : Area
  pub session_area : Area

unfoldable pub get_area : Browser → StorageArea → Area
get_area b local = b.local_area
get_area b session = b.session_area

unfoldable pub put_area : Browser → StorageArea → Area → Browser
put_area b local a = record b { local_area = a }
put_area b session a = record b { session_area = a }

unfoldable pub get_item : String → List (String × Text) → Option Text
get_item key [] = none
get_item key ((k, v) ∷ items) = if k == key then some v else get_item key items

unfoldable pub set_item : String → Text → List (String × Text) → List (String × Text)
set_item key value [] = (key, value) ∷ []
set_item key value ((k, v) ∷ items) =
    if k == key then (key, value) ∷ items else (k, v) ∷ set_item key value items

unfoldable pub remove_item : String → List (String × Text) → List (String × Text)
remove_item key [] = []
remove_item key ((k, v) ∷ items) =
    if k == key then remove_item key items else (k, v) ∷ remove_item key items

-- `null` when the key is missing or the area cannot be read.
unfoldable pub read_storage : Browser → String → StorageArea → Option Text
unfolding get_area get_item
read_storage b key area =
    if (get_area b area).available then get_item key (get_area b area).items else none

write_area : Area → String → Option Text → Area
unfolding set_item remove_item
write_area a key none = if a.available then record a { items = remove_item key a.items } else a
write_area a key (some value) =
    if a.available && a.accepts a.items key value
    then record a { items = set_item key value a.items }
    else a

-- A failure leaves the area as it was.
unfoldable pub write_storage : Browser → String → Option Text → StorageArea → Browser
unfolding write_area get_area put_area
write_storage b key value area = put_area b area (write_area (get_area b area) key value)
