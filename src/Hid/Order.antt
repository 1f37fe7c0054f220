-- ===== src/Hid/Order.antt =====
-- internal/hid/hid.go, `Enumerate`: which devices are listed, and in which order.
use go_elite_log.Base.{
  ℕ, ◌<◌, ◌^◌, ◌≡◌, ◌≤◌, some, refl, ap, ◌∙◌, arith, Bool, true, false, List, [], ◌∷◌, map, ltb,
  ◌==◌, if◌then◌else◌, All, Bool-cases, inl, inr,
}
use go_elite_log.Base.Int.{ltb_ℤ}
use go_elite_log.Base.Result.{ok}
use go_elite_log.Text.{Text}
use go_elite_log.Hid.{
  Device, Tree, entries, add_match, matches, node_number, insert_device, sort_devices, enumerate,
}
use go_elite_log.Hid.Nodes.{
  Node, Entry, node, vanished, garbled, entry_name, device_of, Shows, read_device-node,
  read_device-vanished, read_device-garbled, node_number-device_of,
}
use mathlib.Core.List.{Perm}
use mathlib.Core.List.Perm

-- The nodes with both identifiers.
abbrev both : Bool → Bool → Node → List Node → List Node
both true true x xs = x ∷ xs
both _ _ x xs = xs

abbrev pub wanted : ℕ → ℕ → List Entry → List Node
wanted vendor product [] = []
wanted vendor product (vanished e ∷ es) = wanted vendor product es
wanted vendor product (garbled e id ∷ es) = wanted vendor product es
wanted vendor product (node x ∷ es) =
    both (x.vendor == vendor) (x.product == product) x (wanted vendor product es)

-- No later node has a smaller number.
abbrev pub ByNumber : List Node → Type 0
ByNumber [] = Unit {0}
ByNumber (x ∷ xs) = All (λ y. x.number ≤ y.number) xs × ByNumber xs

abbrev Small : Node → Type 0
Small x = x.number < 2 ^ 63

insert : Node → List Node → List Node
insert x [] = x ∷ []
insert x (y ∷ ys) = let rest = insert x ys in if ltb y.number x.number then y ∷ rest else x ∷ y ∷ ys

sort : List Node → List Node
sort [] = []
sort (x ∷ xs) = insert x (sort xs)

All-insert : (P : Node → Type 0) (x : Node) (xs : List Node) → P x → All P xs → All P (insert x xs)
unfolding insert
All-insert P x [] h hs = (h, tt)
All-insert P x (y ∷ ys) h (hy, hs) = elim (Bool-cases (ltb y.number x.number)) [
  | inl past ↦ rw past (hy, All-insert P x ys h hs)
  | inr here ↦ rw here (h, (hy, hs))
]

All-sort : (P : Node → Type 0) (xs : List Node) → All P xs → All P (sort xs)
unfolding sort
All-sort P [] h = tt
All-sort P (x ∷ xs) (h, hs) = All-insert P x (sort xs) h (All-sort P xs hs)

above : (m n : ℕ) (xs : List Node) → m ≤ n → All (λ y. n ≤ y.number) xs → All (λ y. m ≤ y.number) xs
above m n [] le h = tt
above m n (x ∷ xs) le (h, hs) = (omega arith, above m n xs le hs)

insert-ByNumber : (x : Node) (xs : List Node) → ByNumber xs → ByNumber (insert x xs)
unfolding insert
insert-ByNumber x [] h = (tt, tt)
insert-ByNumber x (y ∷ ys) (hy, hs) = elim (Bool-cases (ltb y.number x.number)) [
  | inl past ↦
      rw past
        (All-insert (λ z. y.number ≤ z.number) x ys (ground arith) hy, insert-ByNumber x ys hs)
  | inr here ↦
      let le : x.number ≤ y.number = ground arith in
      rw here ((le, above x.number y.number ys le hy), (hy, hs))
]

insert_perm : (x : Node) (xs : List Node) → Perm (insert x xs) (x ∷ xs)
unfolding insert
insert_perm x [] = Perm.rfl
insert_perm x (y ∷ ys) = elim (Bool-cases (ltb y.number x.number)) [
  | inl past ↦ rw past (Perm.trans (Perm.cons y (insert_perm x ys)) (Perm.swap x y ys))
  | inr here ↦ rw here Perm.rfl
]

sort-ByNumber : (xs : List Node) → ByNumber (sort xs)
unfolding sort
sort-ByNumber [] = tt
sort-ByNumber (x ∷ xs) = insert-ByNumber x (sort xs) (sort-ByNumber xs)

sort_perm : (xs : List Node) → Perm (sort xs) xs
unfolding sort
sort_perm [] = Perm.rfl
sort_perm (x ∷ xs) = Perm.trans (insert_perm x (sort xs)) (Perm.cons x (sort_perm xs))

module _ (dev_root : Text) where
  devices : List Node → List Device
  devices xs = map (device_of dev_root) xs

  before :
      (x y : Node)
      → Small x
      → Small y
      → ltb_ℤ (node_number (device_of dev_root y).path) (node_number (device_of dev_root x).path)
        ≡ ltb y.number x.number
  before x y hx hy =
      rw (node_number-device_of dev_root x hx, node_number-device_of dev_root y hy) (ground arith)

  insert_device-devices :
      (x : Node) (xs : List Node)
      → Small x
      → All Small xs
      → insert_device (device_of dev_root x) (devices xs) ≡ devices (insert x xs)
  unfolding insert_device insert devices
  insert_device-devices x [] h hs = refl
  insert_device-devices x (y ∷ ys) h (hy, hs) = elim (Bool-cases (ltb y.number x.number)) [
    | inl past ↦
        rw (before x y h hy, past)
          (ap (λ ds. device_of dev_root y ∷ ds) (insert_device-devices x ys h hs))
    | inr here ↦ rw (before x y h hy, here) refl
  ]

  sort_devices-devices :
      (xs : List Node) → All Small xs → sort_devices (devices xs) ≡ devices (sort xs)
  unfolding sort_devices sort devices
  sort_devices-devices [] h = refl
  sort_devices-devices (x ∷ xs) (h, hs) =
      ap (insert_device (device_of dev_root x)) (sort_devices-devices xs hs)
      ∙ insert_device-devices x (sort xs) h (All-sort Small xs hs)

  module _ (tree : Tree) (vendor product : ℕ) where
    add_match-both :
        (x : Node) (xs : List Node)
        → add_match vendor product (some (device_of dev_root x)) (devices xs)
          ≡ devices (both (x.vendor == vendor) (x.product == product) x xs)
    unfolding devices
    add_match-both x xs = elim (Bool-cases (x.vendor == vendor)) [
      | inl v ↦ elim (Bool-cases (x.product == product)) [
        | inl p ↦ rw (v, p) refl
        | inr p ↦ rw (v, p) refl
      ]
      | inr v ↦ rw v refl
    ]

    matches-wanted :
        (es : List Entry)
        → All (Shows tree) es
        → matches dev_root tree vendor product (map entry_name es)
          ≡ devices (wanted vendor product es)
    unfolding matches devices
    matches-wanted [] h = refl
    matches-wanted (vanished e ∷ es) (gone, hs) =
        rw (read_device-vanished dev_root tree e gone) (matches-wanted es hs)
    matches-wanted (garbled e id ∷ es) (shown, hs) =
        rw (read_device-garbled dev_root tree e id shown) (matches-wanted es hs)
    matches-wanted (node x ∷ es) (shown, hs) =
        rw (read_device-node dev_root tree x shown, matches-wanted es hs)
          (add_match-both x (wanted vendor product es))

    All-both :
        (b c : Bool) (x : Node) (xs : List Node)
        → Small x
        → All Small xs
        → All Small (both b c x xs)
    All-both true true x xs h hs = (h, hs)
    All-both true false x xs h hs = hs
    All-both false c x xs h hs = hs

    wanted-Small : (es : List Entry) → All (Shows tree) es → All Small (wanted vendor product es)
    wanted-Small [] h = tt
    wanted-Small (vanished e ∷ es) (gone, hs) = wanted-Small es hs
    wanted-Small (garbled e id ∷ es) (shown, hs) = wanted-Small es hs
    wanted-Small (node x ∷ es) ((h, _, _, _, _), hs) =
        All-both (x.vendor == vendor) (x.product == product) x (wanted vendor product es) h
          (wanted-Small es hs)

    -- If the names of the class directory are those of nodes `hidraw<n>` with the six lines of
    -- the kernel in their uevent files, where `n` is below 2^63 and the bus and both identifiers
    -- below 2^16, and others whose uevent file cannot be opened or is one line HID_ID without a
    -- colon in its value, then `Enumerate` returns the nodes with both identifiers asked for,
    -- each with its path, its bus, its identifiers and its name, in the order of their numbers.
    pub enumerate_lem :
        (es : List Entry)
        → tree.class_dir ≡ entries (map entry_name es)
        → All (Shows tree) es
        → (xs : List Node) × (enumerate dev_root tree vendor product
            ≡ ok (map (device_of dev_root) xs))
          × ByNumber xs
          × Perm xs (wanted vendor product es)
    unfolding enumerate devices
    enumerate_lem es dir shown =
        let xs = wanted vendor product es in
        let found = matches-wanted es shown in
        let sorted = sort_devices-devices xs (wanted-Small es shown) in
        (sort xs, rw (dir, found) (ap ok sorted), sort-ByNumber xs, sort_perm xs)
