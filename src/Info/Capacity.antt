-- ===== src/Info/Capacity.antt =====
-- internal/elitech/info.go: the capacity and the record count.
use go_elite_log.Base.{
  ℕ, ◌+◌, ◌*◌, ◌/◌, ◌%◌, ◌≤◌, ◌<◌, ◌≡◌, arith, false, some, List, [], ◌∷◌, set, ◌==◌, ◌&&◌,
}
use go_elite_log.Info.{Counts, decode_capacity_count, capacity_of, count_of}

-- If a block decodes to a capacity and a count, the count is at most the capacity.
pub count-le-capacity :
    (b : List ℕ) (protocol : ℕ) {c : Counts}
    → decode_capacity_count b protocol ≡ some c
    → c.count ≤ c.capacity
unfolding decode_capacity_count
count-le-capacity b protocol h = ground arith

-- The block at 0x42 of a running logger.
abbrev pub block : ℕ → ℕ → List ℕ
block capacity count =
    capacity / 16777216 % 256
    ∷ capacity / 65536 % 256
    ∷ capacity / 256 % 256
    ∷ capacity % 256
    ∷ count / 16777216 % 256
    ∷ count / 65536 % 256
    ∷ count / 256 % 256
    ∷ count % 256
    ∷ 0
    ∷ 0
    ∷ []

-- A logger that stops overwrites the first two bytes and the last two by 0xFF.
abbrev pub stop_marks : List ℕ → List ℕ
stop_marks b = set (set (set (set b 0 0xFF) 1 0xFF) 8 0xFF) 9 0xFF

top_half :
    (c : ℕ) → c < 0xFFFF0000 → ((c / 16777216 % 256 == 0xFF) && (c / 65536 % 256 == 0xFF)) ≡ false
top_half c h = ground arith

be32_bytes :
    (c : ℕ)
    → c < 0xFFFF0000
    → c / 16777216 % 256 * 16777216 + c / 65536 % 256 * 65536 + c / 256 % 256 * 256 + c % 256 ≡ c
be32_bytes c h = omega arith

capacity_of-block :
    (capacity count : ℕ)
    → capacity < 0xFFFF0000
    → capacity_of (block capacity count) ≡ some capacity
unfolding capacity_of
capacity_of-block c n h = ground (arith, top_half c h, be32_bytes c h)

count_of-block :
    (capacity count protocol : ℕ)
    → count < 0xFFFF0000
    → 0x24 ≤ protocol
    → count_of (block capacity count) protocol ≡ some count
unfolding count_of
count_of-block c n protocol h hp = ground (arith, top_half n h, be32_bytes n h)

-- From protocol 0x24 on, the block of a capacity below 0xFFFF0000 and a count of at most that
-- decodes to the two.
pub decode_capacity_count-block :
    (capacity count protocol : ℕ)
    → capacity < 0xFFFF0000
    → count ≤ capacity
    → 0x24 ≤ protocol
    → decode_capacity_count (block capacity count) protocol
      ≡ some (record { capacity = capacity; count = count })
unfolding decode_capacity_count
decode_capacity_count-block capacity count protocol hc hn hp = ground (
  arith,
  capacity_of-block capacity count hc,
  count_of-block capacity count protocol (omega arith) hp,
)

-- From protocol 0x24 on, for a capacity below 65535 and a count of at most that, the block
-- decodes to the two also where a stopped logger has overwritten its first and last two bytes by
-- 0xFF.
pub decode_capacity_count-stop_marks :
    (capacity count protocol : ℕ)
    → capacity < 65535
    → count ≤ capacity
    → 0x24 ≤ protocol
    → decode_capacity_count (stop_marks (block capacity count)) protocol
      ≡ some (record { capacity = capacity; count = count })
unfolding decode_capacity_count
decode_capacity_count-stop_marks capacity count protocol hc hn hp = ground arith
