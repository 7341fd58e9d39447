-- ===== src/Storage/Laws.antt =====
-- What a read sees after a write, in every area and for every key.
use Prim.Native.String.{String}
use text.Mathlib.Text.{◌==◌}
use text.Mathlib.TextEquality.{eq_iff}
use kiro_reverse_api.Prelude.{
  ◌≡◌, refl, Bool, true, false, ◌&&◌, List, [], ◌∷◌, Option, none, some, if◌then◌else◌, if_keeps,
  arith,
}
use kiro_reverse_api.Text.{Text}
use kiro_reverse_api.Storage.{
  StorageArea, local, session, Area, Browser, get_area, get_item, set_item, remove_item,
  read_storage, write_area, write_storage,
}

abbrev pub same_area : StorageArea → StorageArea → Bool
same_area local local = true
same_area session session = true
same_area local session = false
same_area session local = false

-- Whether a write takes effect: a removal in every area that can be reached, a value where the
-- quota allows it.
abbrev pub takes : Area → String → Option Text → Bool
takes a key none = a.available
takes a key (some value) = a.available && a.accepts a.items key value

get_item-set_item :
    (k j : String) (v : Text) (m : List (String × Text))
    → get_item j (set_item k v m) ≡ (if k == j then some v else get_item j m)
unfolding get_item set_item
get_item-set_item k j v [] = refl
get_item-set_item k j v ((i, w) ∷ m) =
    ground (arith, eq_iff k j, eq_iff i k, eq_iff i j, get_item-set_item k j v m)

get_item-remove_item :
    (k j : String) (m : List (String × Text))
    → get_item j (remove_item k m) ≡ (if k == j then none else get_item j m)
unfolding get_item remove_item
get_item-remove_item k j [] = ground arith
get_item-remove_item k j ((i, w) ∷ m) =
    ground (arith, eq_iff k j, eq_iff i k, eq_iff i j, get_item-remove_item k j m)

-- A read after a write sees the value exactly at the key and area of a write that takes effect,
-- and what was there before at every other key or area.
pub read_storage-write_storage :
    (b : Browser) (k j : String) (v : Option Text) (w r : StorageArea)
    → read_storage (write_storage b k v w) j r
      ≡ (if same_area w r && k == j && takes (get_area b w) k v then v else read_storage b j r)
unfolding read_storage write_storage
read_storage-write_storage b k j none local local =
    ground (arith, get_item-remove_item k j b.local_area.items)
read_storage-write_storage b k j none session session =
    ground (arith, get_item-remove_item k j b.session_area.items)
read_storage-write_storage b k j (some v) local local =
    ground (arith, get_item-set_item k j v b.local_area.items)
read_storage-write_storage b k j (some v) session session =
    ground (arith, get_item-set_item k j v b.session_area.items)
read_storage-write_storage b k j none local session = ground arith
read_storage-write_storage b k j none session local = ground arith
read_storage-write_storage b k j (some v) local session = ground arith
read_storage-write_storage b k j (some v) session local = ground arith

-- After a removal nothing is read at the key, whether or not the area can be reached.
pub read_storage_removed :
    (b : Browser) (k j : String) (w r : StorageArea)
    → read_storage (write_storage b k none w) j r
      ≡ (if same_area w r && k == j then none else read_storage b j r)
unfolding read_storage write_storage
read_storage_removed b k j local local = ground (arith, get_item-remove_item k j b.local_area.items)
read_storage_removed b k j session session =
    ground (arith, get_item-remove_item k j b.session_area.items)
read_storage_removed b k j local session = ground arith
read_storage_removed b k j session local = ground arith

-- The area takes every write: it can be reached and no quota is met.
abbrev pub IsOpen : Area → Type 0
IsOpen a =
    (a.available ≡ true)
    × ((items : List (String × Text)) (k : String) (v : Text) → a.accepts items k v ≡ true)

write_area-IsOpen : (a : Area) (k : String) (v : Option Text) → IsOpen a → IsOpen (write_area a k v)
unfolding write_area
write_area-IsOpen a k none h = if_keeps IsOpen a.available h h
write_area-IsOpen a k (some v) h = if_keeps IsOpen (a.available && a.accepts a.items k v) h h

-- An area that takes every write still does after one.
pub write_storage-IsOpen :
    (b : Browser) (k : String) (v : Option Text) (w r : StorageArea)
    → IsOpen (get_area b r)
    → IsOpen (get_area (write_storage b k v w) r)
unfolding write_storage
write_storage-IsOpen b k v local local h = write_area-IsOpen b.local_area k v h
write_storage-IsOpen b k v session session h = write_area-IsOpen b.session_area k v h
write_storage-IsOpen b k v local session h = h
write_storage-IsOpen b k v session local h = h

-- A value that was written to such an area is read back.
pub read_storage_written :
    (b : Browser) (k j : String) (v : Text) (w r : StorageArea)
    → IsOpen (get_area b w)
    → read_storage (write_storage b k (some v) w) j r
      ≡ (if same_area w r && k == j then some v else read_storage b j r)
read_storage_written b k j v w r h =
    ground (arith, read_storage-write_storage b k j (some v) w r, h.1 (get_area b w).items k v)

-- Another key is not touched, whatever the write does.
pub read_storage_other :
    (b : Browser) (k j : String) (v : Option Text) (w r : StorageArea)
    → (same_area w r && k == j) ≡ false
    → read_storage (write_storage b k v w) j r ≡ read_storage b j r
read_storage_other b k j v w r h = ground (arith, read_storage-write_storage b k j v w r)
