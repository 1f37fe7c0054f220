-- ===== src/Hid/Ident.antt =====
-- internal/hid/hid.go, `parseHIDID`: the identification that the kernel prints.
use go_elite_log.Base.{ℕ, ◌%◌, ◌^◌, ◌<◌, ◌≡◌, refl, ap, ◌∙◌, arith, [], ◌∷◌, ◌++◌}
use go_elite_log.Base.Result.{ok, err, malformed_id}
use go_elite_log.Text.{Text, hex_text}
use go_elite_log.Text.Parts.{
  Lacks, split_end, split_three, hex_text-Lacks, parse_hex-four, parse_hex-eight,
}
use go_elite_log.Hid.{parse_parts, parse_hid_id}

-- The kernel's format, "%04X:%08X:%08X".
abbrev pub print_hid_id : ℕ → ℕ → ℕ → Text
print_hid_id bus vendor product =
    hex_text 4 bus ++ (b':' ∷ (hex_text 8 vendor ++ (b':' ∷ hex_text 8 product)))

-- One part is no identification.
pub parse_hid_id-Lacks : (s : Text) → Lacks b':' s → parse_hid_id s ≡ err malformed_id
unfolding parse_hid_id
parse_hid_id-Lacks s h = ap parse_parts (split_end b':' s h)

three :
    (bus vendor product : ℕ)
    → bus < 65536
    → vendor < 65536
    → product < 65536
    → parse_parts (hex_text 4 bus ∷ hex_text 8 vendor ∷ hex_text 8 product ∷ [])
      ≡ ok (bus, vendor, product)
three bus vendor product hb hv hp =
    let eb : bus % 2 ^ 16 ≡ bus = omega arith in
    let ev : vendor % 2 ^ 16 ≡ vendor = omega arith in
    let ep : product % 2 ^ 16 ≡ product = omega arith in
    rw (parse_hex-four bus hb, parse_hex-eight vendor hv, parse_hex-eight product hp, eb, ev, ep)
      refl

-- The identification %04X:%08X:%08X of a bus, a vendor and a product below 2^16 is parsed to the
-- three.
pub parse_hid_id-print_hid_id :
    (bus vendor product : ℕ)
    → bus < 65536
    → vendor < 65536
    → product < 65536
    → parse_hid_id (print_hid_id bus vendor product) ≡ ok (bus, vendor, product)
unfolding parse_hid_id
parse_hid_id-print_hid_id bus vendor product hb hv hp =
    ap parse_parts (
      split_three b':' (hex_text 4 bus) (hex_text 8 vendor) (hex_text 8 product)
        (hex_text-Lacks 4 bus) (hex_text-Lacks 8 vendor) (hex_text-Lacks 8 product))
    ∙ three bus vendor product hb hv hp
