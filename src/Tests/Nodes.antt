-- ===== src/Tests/Nodes.antt =====
-- Two hidraw nodes, and the site and the commands on the logger of `Device` behind the first.
use go_elite_log.Base.{
  ℕ, map, if◌then◌else◌, ◌≡◌, ◌⊎◌, refl, arith, Option, none, some, List, [], ◌∷◌, All,
}
use go_elite_log.Base.Int.{pos}
use go_elite_log.Base.Result.{ok, Error}
use go_elite_log.Base.Step.{Step, pure}
use go_elite_log.Text.{
  Text, codes, text_eq, itoa_ℕ, digits, hex_text, split, cut, parse_hex, scan_hex, atoi, parse_uint,
  scan,
}
use go_elite_log.Hid.{
  base_from, Device, Tree, entries, enumerate, matches, read_device, read_lines, parse_hid_id,
  node_number, insert_device, sort_devices, vendor_elitech, product_logger,
}
use go_elite_log.Hid.Ident.{print_hid_id, parse_hid_id-print_hid_id}
use go_elite_log.Text.Parts.{Lacks}
use go_elite_log.Hid.Nodes.{
  Node, Entry, node, vanished, garbled, entry_name, uevent_lines, Shows, device_of,
}
use go_elite_log.Hid.Order.{wanted, ByNumber, enumerate_lem}
use go_elite_log.Logger.Transport.{World}
use go_elite_log.Logger.Requests.{recorder, IsRead, log_of}
use go_elite_log.Loggers.Guarded.{recorded}
use go_elite_log.Web.Site.{Request, post_configure, post_start}
use go_elite_log.Web.Site.Guarded.{MayErase, posts_guarded}
use go_elite_log.Cli.{Flags, parsed, command_of}
use go_elite_log.Cli.Guarded.{elitelog, StartErases, main_guarded}
use go_elite_log.Tests.Device.{logger, recording}
use mathlib.Core.List.{Perm}

-- A logger's node as the kernel shows it.
abbrev logger_node : ℕ → Node
logger_node n = record {
  number = n;
  bus = 3;
  vendor = 0x246C;
  product = 0x9001;
  driver = codes "hid-generic";
  name = codes "Elitech";
  place = codes "usb-0000:65:00.3-1.1/input1";
  serial = [];
  alias = codes "hid:b0003g0001v0000246Cp00009001";
}

abbrev key_node : Node
key_node = record (logger_node 3) { vendor = 0x1050; product = 0x0402 }

abbrev some_entries : List Entry
some_entries =
    node (logger_node 10)
    ∷ node key_node
    ∷ vanished (codes "hidraw4")
    ∷ garbled (codes "hidraw1") (codes "bad")
    ∷ node (logger_node 2)
    ∷ []

abbrev uevent_of : Text → Option (List Text)
uevent_of name =
    if text_eq name (codes "hidraw3")
    then some (uevent_lines key_node)
    else if text_eq name (codes "hidraw4")
    then none
    else if text_eq name (codes "hidraw1")
    then some (codes "HID_ID=bad" ∷ [])
    else some (uevent_lines (logger_node (if text_eq name (codes "hidraw2") then 2 else 10)))

abbrev some_tree : Tree
some_tree = record { class_dir = entries (map entry_name some_entries); uevent = uevent_of }

abbrev pub dev_root : Text
dev_root = codes "/dev"

bad-Lacks : Lacks b':' (codes "bad")
bad-Lacks = (λ e. cc, (λ e. cc, (λ e. cc, tt)))

some_entries-Shows : All (Shows some_tree) some_entries
unfolding itoa_ℕ digits
some_entries-Shows = (
  (omega arith, omega arith, omega arith, omega arith, refl),
  (
    (omega arith, omega arith, omega arith, omega arith, refl),
    (refl, ((bad-Lacks, refl), ((omega arith, omega arith, omega arith, omega arith, refl), tt))),
  ),
)

enumerate_run :
    enumerate dev_root some_tree vendor_elitech product_logger
    ≡ ok (device_of dev_root (logger_node 2) ∷ device_of dev_root (logger_node 10) ∷ [])
unfolding enumerate matches read_device read_lines cut parse_hid_id split parse_hex scan_hex
    sort_devices insert_device node_number atoi parse_uint scan itoa_ℕ digits hex_text base_from
enumerate_run = refl

enumerate_lem_example :
    (xs : List Node) × (enumerate dev_root some_tree vendor_elitech product_logger
      ≡ ok (map (device_of dev_root) xs))
    × ByNumber xs
    × Perm xs (wanted vendor_elitech product_logger some_entries)
enumerate_lem_example =
    enumerate_lem dev_root some_tree vendor_elitech product_logger some_entries refl
      some_entries-Shows

parse_hid_id-print_hid_id_example :
    parse_hid_id (print_hid_id 3 0x246C 0x9001) ≡ ok (3, 0x246C, 0x9001)
parse_hid_id-print_hid_id_example =
    parse_hid_id-print_hid_id 3 0x246C 0x9001 (omega arith) (omega arith) (omega arith)

unfoldable pub open_node : Device → World logger → Option Error × World logger
unfolding logger
open_node dev d = (none, d)

unfoldable pub tree_of : World logger → Tree
tree_of d = some_tree

unfoldable pub plugged_in : World (recorder logger)
unfolding logger
plugged_in = (recording, [])

abbrev pub untrimmed : Text → Text
untrimmed s = s

-- Ten minutes, not confirmed.
abbrev pub some_form : Request
some_form = record {
  form_error = none;
  post = (codes "interval_minutes", codes "10") ∷ (codes "interval_seconds", codes "0") ∷ [];
  query = [];
}

posts_guarded_example :
    (All IsRead (
        log_of logger
          (post_configure
            (recorded logger open_node dev_root tree_of)
            untrimmed
            some_form
            plugged_in).1)
      ⊎ MayErase logger open_node dev_root tree_of untrimmed some_form plugged_in)
    × (All IsRead (
          log_of logger
            (post_start
              (recorded logger open_node dev_root tree_of)
              untrimmed
              some_form
              plugged_in).1)
        ⊎ MayErase logger open_node dev_root tree_of untrimmed some_form plugged_in)
unfolding plugged_in
posts_guarded_example =
    posts_guarded logger open_node dev_root tree_of untrimmed some_form plugged_in tt

-- Flags that are left at their defaults, but for a confirmation of two records.
abbrev some_flags : Flags
some_flags = record {
  serve_flags = λ args. parsed (codes ":1350");
  records_flags = λ args. parsed (pos 0);
  start_flags = λ args. parsed (0, 2);
  peek_flags = λ args. parsed (3, 0, 32);
}

abbrev listening : Text → Step (World (recorder logger)) (Unit {0})
listening addr = pure tt

main_guarded_example :
    All IsRead (
      log_of logger
        (elitelog logger open_node dev_root tree_of some_flags listening
          (codes "start" ∷ [])
          plugged_in).1)
    ⊎ StartErases logger open_node dev_root tree_of some_flags listening
        (codes "start" ∷ [])
        plugged_in
unfolding plugged_in command_of
main_guarded_example =
    main_guarded logger open_node dev_root tree_of some_flags listening (codes "start" ∷ [])
      plugged_in tt refl
