-- ===== src/Segment/Index.antt =====
-- Numbers as the bytes of a little-endian machine, and the index that names a record.
use native.Mathlib.Nat.{pow-suc}
use paxosme.Prelude.{
  ℕ, zero, suc, ◌+◌, ◌*◌, ◌/◌, ◌%◌, ◌^◌, ◌<◌, ◌≡◌, refl, sym, ap, [], ◌∷◌, ◌++◌, Bytes, length,
  take, drop, take_front_part, drop_front_part, take_all, arith,
}

-- The bytes of an unsigned number of `w` bytes, the lowest first.
unfoldable pub le_bytes : ℕ → ℕ → Bytes
le_bytes zero n = []
le_bytes (suc w) n = n % 256 ∷ le_bytes w (n / 256)

unfoldable pub le_value : Bytes → ℕ
le_value [] = 0
le_value (b ∷ bs) = b + 256 * le_value bs

pub length-le_bytes : (w n : ℕ) → length (le_bytes w n) ≡ w
unfolding le_bytes
length-le_bytes zero n = refl
length-le_bytes (suc w) n = ap suc (length-le_bytes w (n / 256))

pub le_value-le_bytes : (w n : ℕ) → n < 256 ^ w → le_value (le_bytes w n) ≡ n
unfolding le_value le_bytes
le_value-le_bytes zero n h = omega arith
le_value-le_bytes (suc w) n h =
    let fits : n / 256 < 256 ^ w = omega (arith, pow-suc 256 w) in
    omega (arith, le_value-le_bytes w (n / 256) fits)

-- What ParseSegmentIndex reads out of an index: SEGMENT_ID is an int32_t, off_t a signed
-- number of eight bytes, CHECKSUM takes eight bytes.
pub record Place : Type 0 where
  pub segment_id : ℕ
  pub offset : ℕ
  pub checksum : ℕ

pub record Fits (p : Place) : Type 0 where
  pub id_fits : p.segment_id < 2 ^ 31
  pub offset_fits : p.offset < 2 ^ 63
  pub checksum_fits : p.checksum < 256 ^ 8

unfoldable pub to_segment_index : Place → Bytes
to_segment_index p = le_bytes 4 p.segment_id ++ (le_bytes 8 p.offset ++ le_bytes 8 p.checksum)

unfoldable pub parse_segment_index : Bytes → Place
parse_segment_index b = record {
  segment_id = le_value (take 4 b);
  offset = le_value (take 8 (drop 4 b));
  checksum = le_value (take 8 (drop 8 (drop 4 b)));
}

-- An index whose numbers fit their fields names the place that it was made from.
pub parse-to_segment_index : (p : Place) → Fits p → parse_segment_index (to_segment_index p) ≡ p
unfolding parse_segment_index to_segment_index
parse-to_segment_index p f = rw (
  take_front_part 4 _ _ (length-le_bytes 4 p.segment_id),
  drop_front_part 4 _ _ (length-le_bytes 4 p.segment_id),
  take_front_part 8 _ _ (length-le_bytes 8 p.offset),
  drop_front_part 8 _ _ (length-le_bytes 8 p.offset),
  take_all 8 _ (sym (length-le_bytes 8 p.checksum)),
  le_value-le_bytes 4 p.segment_id (omega (arith, f.id_fits)),
  le_value-le_bytes 8 p.offset (omega (arith, f.offset_fits)),
  le_value-le_bytes 8 p.checksum f.checksum_fits,
)
