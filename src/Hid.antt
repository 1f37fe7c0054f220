-- ===== src/Hid.antt =====
-- internal/hid/hid.go: the hidraw nodes of a vendor and a product. The tree of sysfs is a parameter:
-- the names of /sys/class/hidraw, and the lines of the uevent file of a node.
pub mod Conn
pub mod Ident
pub mod Nodes
pub mod Order
use go_elite_log.Base.{
  ℕ, zero, suc, ◌+◌, ◌%◌, ◌^◌, Bool, true, false, ◌&&◌, ◌||◌, Option, none, some, List, [], ◌∷◌,
  ◌++◌, ltb, leb, ◌==◌, if◌then◌else◌, option_or,
}
use go_elite_log.Base.Int.{ℤ, pos, ◌≤ℤ◌, ltb_ℤ}
use go_elite_log.Base.Result.{Result, ok, err, Error, malformed_id}
use go_elite_log.Text.{Text, codes, text_eq, split, cut, trim_prefix, atoi, parse_hex}

-- `type Device struct`
pub record Device : Type 0 where
  pub path : Text
  pub bus : ℕ
  pub vendor_id : ℕ
  pub product_id : ℕ
  pub name : Text

abbrev pub no_device : Device
no_device = record { path = []; bus = 0; vendor_id = 0; product_id = 0; name = [] }

-- What `os.ReadDir` gives.
pub data Listing : Type 0 where
  entries : List Text → Listing
  not_exist : Listing
  unreadable : Error → Listing

pub record Tree : Type 0 where
  pub class_dir : Listing
  -- `none` where the file cannot be opened
  pub uevent : Text → Option (List Text)

-- `filepath.Join` of a clean directory and a name, and `filepath.Base` of such a path.
abbrev pub join : Text → Text → Text
join dir node = dir ++ (b'/' ∷ node)

unfoldable pub base_from : Text → Text → Text
base_from node [] = node
base_from node (c ∷ s) = base_from (if c == b'/' then s else node) s

abbrev pub base : Text → Text
base path = base_from path path

-- The three fields, each a 32-bit number in hexadecimal that is cut to 16 bits.
abbrev pub three_of : Option ℕ → Option ℕ → Option ℕ → Result (ℕ × ℕ × ℕ)
three_of (some b) (some v) (some p) = ok (b % 2 ^ 16, v % 2 ^ 16, p % 2 ^ 16)
three_of none v p = err malformed_id
three_of (some b) none p = err malformed_id
three_of (some b) (some v) none = err malformed_id

abbrev pub parse_parts : List Text → Result (ℕ × ℕ × ℕ)
parse_parts (b ∷ v ∷ p ∷ []) = three_of (parse_hex b) (parse_hex v) (parse_hex p)
parse_parts _ = err malformed_id

-- `parseHIDID`
unfoldable pub parse_hid_id : Text → Result (ℕ × ℕ × ℕ)
unfolding split parse_hex
parse_hid_id s = parse_parts (split b':' s)

-- The loop of `readDevice` over the lines, with the device so far and `haveID`; `none` is the
-- early return.
abbrev pub with_id : Device → Result (ℕ × ℕ × ℕ) → Option (Device × Bool)
with_id d (ok (b, v, p)) = some (record d { bus = b; vendor_id = v; product_id = p }, true)
with_id d _ = none

abbrev pub read_line : Device × Bool → Option (Text × Text) → Option (Device × Bool)
read_line (d, have_id) none = some (d, have_id)
read_line (d, have_id) (some (key, val)) =
    if text_eq key (codes "HID_ID")
    then with_id d (parse_hid_id val)
    else if text_eq key (codes "HID_NAME")
    then some (record d { name = val }, have_id)
    else some (d, have_id)

unfoldable pub read_lines : Device × Bool → List Text → Option (Device × Bool)
unfolding cut parse_hid_id
read_lines st [] = some st
read_lines st (l ∷ ls) = option_or none (λ st'. read_lines st' ls) (read_line st (cut b'=' l))

abbrev pub if_found : Option (Device × Bool) → Option Device
if_found none = none
if_found (some (d, true)) = some d
if_found (some (d, false)) = none

-- The test of `Enumerate` on what `readDevice` returns.
abbrev pub is_match : ℕ → ℕ → Device → Bool
is_match vendor product d = (d.vendor_id == vendor) && (d.product_id == product)

abbrev pub add_match : ℕ → ℕ → Option Device → List Device → List Device
add_match vendor product none found = found
add_match vendor product (some d) found = if is_match vendor product d then d ∷ found else found

module _ (dev_root : Text) (tree : Tree) where
  -- `readDevice`, `none` for false.
  unfoldable pub read_device : Text → Option Device
  unfolding read_lines
  read_device node =
      option_or none
        (λ ls. if_found (read_lines (record no_device { path = join dev_root node }, false) ls))
        (tree.uevent node)

  -- The loop of `Enumerate`.
  unfoldable pub matches : ℕ → ℕ → List Text → List Device
  unfolding read_device
  matches vendor product [] = []
  matches vendor product (e ∷ es) =
      add_match vendor product (read_device e) (matches vendor product es)

-- `nodeNumber`, which drops the error of `Atoi` and keeps its value.
unfoldable pub node_number : Text → ℤ
unfolding atoi base_from
node_number path = (atoi (trim_prefix (codes "hidraw") (base path))).0

-- `sort.Slice` by the node number. The order of nodes of the same number is left open by Go; here
-- the earlier one stays first.
unfoldable pub insert_device : Device → List Device → List Device
unfolding node_number
insert_device d [] = d ∷ []
insert_device d (e ∷ es) =
    let rest = insert_device d es in
    if ltb_ℤ (node_number e.path) (node_number d.path) then e ∷ rest else d ∷ e ∷ es

unfoldable pub sort_devices : List Device → List Device
unfolding insert_device
sort_devices [] = []
sort_devices (d ∷ ds) = insert_device d (sort_devices ds)

module _ (dev_root : Text) (tree : Tree) where
  -- `Enumerate`
  unfoldable pub enumerate : ℕ → ℕ → Result (List Device)
  unfolding matches sort_devices
  enumerate vendor product = elim tree.class_dir [
    | not_exist ↦ ok []
    | unreadable e ↦ err e
    | entries es ↦ ok (sort_devices (matches dev_root tree vendor product es))
  ]

abbrev pub vendor_elitech : ℕ
vendor_elitech = 0x246C

abbrev pub product_logger : ℕ
product_logger = 0x9001
