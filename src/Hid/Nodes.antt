-- ===== src/Hid/Nodes.antt =====
-- internal/hid/hid.go, `readDevice` and `nodeNumber`, on the nodes as the kernel shows them.
use go_elite_log.Base.{
  ℕ, ◌^◌, ◌<◌, ◌≡◌, refl, ap, ◌∙◌, arith, true, none, some, List, [], ◌∷◌, ◌++◌, All,
}
use go_elite_log.Base.Int.{pos}
use go_elite_log.Text.{Text, codes, cut, itoa_ℕ, is_digit, trim_prefix, atoi, itoa}
use go_elite_log.Text.Decimal.{IsNumeral, itoa_ℕ-IsNumeral, atoi-itoa}
use go_elite_log.Text.Parts.{Lacks}
use go_elite_log.Hid.{Device, Tree, base_from, read_device, node_number}
use go_elite_log.Hid.Ident.{print_hid_id, parse_hid_id-print_hid_id, parse_hid_id-Lacks}

-- A hidraw node: its number, and what the kernel tells of it.
pub record Node : Type 0 where
  pub number : ℕ
  pub bus : ℕ
  pub vendor : ℕ
  pub product : ℕ
  pub driver : Text
  pub name : Text
  pub place : Text
  pub serial : Text
  pub alias : Text

abbrev pub node_name : ℕ → Text
node_name n = codes "hidraw" ++ itoa_ℕ n

-- The lines of the uevent file.
abbrev pub uevent_lines : Node → List Text
uevent_lines x =
    (codes "DRIVER=" ++ x.driver)
    ∷ (codes "HID_ID=" ++ print_hid_id x.bus x.vendor x.product)
    ∷ (codes "HID_NAME=" ++ x.name)
    ∷ (codes "HID_PHYS=" ++ x.place)
    ∷ (codes "HID_UNIQ=" ++ x.serial)
    ∷ (codes "MODALIAS=" ++ x.alias)
    ∷ []

-- A name of the class directory: a node's, one whose uevent file cannot be opened, or one whose
-- file has an identification that is none.
pub data Entry : Type 0 where
  node : Node → Entry
  vanished : Text → Entry
  garbled : Text → Text → Entry

abbrev pub entry_name : Entry → Text
entry_name (node x) = node_name x.number
entry_name (vanished e) = e
entry_name (garbled e id) = e

-- The tree shows the entry; the numbers are those of an int and of three 16-bit words.
abbrev pub Shows : Tree → Entry → Type 0
Shows tree (node x) =
    (x.number < 2 ^ 63)
    × (x.bus < 65536)
    × (x.vendor < 65536)
    × (x.product < 65536)
    × (tree.uevent (node_name x.number) ≡ some (uevent_lines x))
Shows tree (vanished e) = tree.uevent e ≡ none
Shows tree (garbled e id) = Lacks b':' id × (tree.uevent e ≡ some ((codes "HID_ID=" ++ id) ∷ []))

abbrev pub device_of : Text → Node → Device
device_of dev_root x = record {
  path = dev_root ++ (b'/' ∷ node_name x.number);
  bus = x.bus;
  vendor_id = x.vendor;
  product_id = x.product;
  name = x.name;
}

pub read_device-node :
    (dev_root : Text) (tree : Tree) (x : Node)
    → Shows tree (node x)
    → read_device dev_root tree (node_name x.number) ≡ some (device_of dev_root x)
unfolding read_device cut
read_device-node dev_root tree x (hn, hb, hv, hp, shown) =
    rw (shown, parse_hid_id-print_hid_id x.bus x.vendor x.product hb hv hp) refl

pub read_device-vanished :
    (dev_root : Text) (tree : Tree) (e : Text)
    → tree.uevent e ≡ none
    → read_device dev_root tree e ≡ none
unfolding read_device
read_device-vanished dev_root tree e gone = rw gone refl

pub read_device-garbled :
    (dev_root : Text) (tree : Tree) (e id : Text)
    → Shows tree (garbled e id)
    → read_device dev_root tree e ≡ none
unfolding read_device cut
read_device-garbled dev_root tree e id (one_part, shown) =
    rw (shown, parse_hid_id-Lacks id one_part) refl

base_from-Lacks : (here s : Text) → Lacks b'/' s → base_from here s ≡ here
unfolding base_from
base_from-Lacks here [] h = refl
base_from-Lacks here (c ∷ s) (hc, hs) = ground (arith, base_from-Lacks here s hs)

base_from-append : (a s here : Text) → Lacks b'/' s → base_from here (a ++ (b'/' ∷ s)) ≡ s
unfolding base_from
base_from-append [] s here h = base_from-Lacks s s h
base_from-append (c ∷ a) s here h = base_from-append a s _ h

digits-Lacks : (s : Text) → All (λ c. is_digit c ≡ true) s → Lacks b'/' s
digits-Lacks [] h = tt
digits-Lacks (c ∷ s) (hc, hs) = (ground arith, digits-Lacks s hs)

numeral-Lacks : (s : Text) → IsNumeral s → Lacks b'/' s
numeral-Lacks [] h = tt
numeral-Lacks (c ∷ s) h = digits-Lacks (c ∷ s) h

letters-Lacks : (s : Text) → Lacks b'/' s → Lacks b'/' (codes "hidraw" ++ s)
letters-Lacks s h = (
  ground arith,
  (ground arith, (ground arith, (ground arith, (ground arith, (ground arith, h))))),
)

atoi-itoa_ℕ : (n : ℕ) → n < 2 ^ 63 → (atoi (itoa_ℕ n)).0 ≡ pos n
unfolding itoa
atoi-itoa_ℕ n h = ap (λ r. r.0) (atoi-itoa (pos n) h)

pub node_number-device_of :
    (dev_root : Text) (x : Node)
    → x.number < 2 ^ 63
    → node_number (device_of dev_root x).path ≡ pos x.number
unfolding node_number
node_number-device_of dev_root x h =
    ap (λ t. (atoi (trim_prefix (codes "hidraw") t)).0)
      (base_from-append dev_root (node_name x.number) _ (
        letters-Lacks (itoa_ℕ x.number)
          (numeral-Lacks (itoa_ℕ x.number) (itoa_ℕ-IsNumeral x.number))))
    ∙ atoi-itoa_ℕ x.number h
