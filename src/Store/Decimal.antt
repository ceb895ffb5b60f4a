-- ===== src/Store/Decimal.antt =====
-- std::to_string of a 64-bit number, by which PaxStore makes its keys.
use native.Mathlib.Nat.{pow-suc}
use paxosme.Prelude.{
  ℕ, zero, suc, ◌+◌, ◌-◌, ◌*◌, ◌/◌, ◌%◌, ◌^◌, ◌<◌, ◌≡◌, refl, sym, ap, ◌∙◌, [], ◌∷◌, ◌++◌, ltb,
  if◌then◌else◌, inl, inr, Bool-cases, Bytes, arith,
}

to_string_loop : ℕ → ℕ → Bytes
to_string_loop zero n = []
to_string_loop (suc f) n =
    let rest = to_string_loop f (n / 10) ++ (b'0' + n % 10) ∷ [] in
    if ltb n 10 then (b'0' + n) ∷ [] else rest

-- Twenty digits are enough for a number below 2^64.
unfoldable pub to_string : ℕ → Bytes
unfolding to_string_loop
to_string n = to_string_loop 20 n

-- The number that a text of digits stands for.
value : ℕ → Bytes → ℕ
value acc [] = acc
value acc (c ∷ cs) = value (acc * 10 + (c - b'0')) cs

value-append : (acc c : ℕ) (cs : Bytes) → value acc (cs ++ c ∷ []) ≡ value acc cs * 10 + (c - b'0')
unfolding value
value-append acc c [] = refl
value-append acc c (d ∷ cs) = value-append (acc * 10 + (d - b'0')) c cs

value-one : (n : ℕ) → value 0 ((b'0' + n) ∷ []) ≡ n
unfolding value
value-one n = omega arith

value-nil : (n : ℕ) → n < 1 → value 0 [] ≡ n
unfolding value
value-nil n h = omega arith

value-to_string_loop : (f n : ℕ) → n < 10 ^ f → value 0 (to_string_loop f n) ≡ n
unfolding to_string_loop
value-to_string_loop zero n h = value-nil n h
value-to_string_loop (suc f) n h = elim (Bool-cases (ltb n 10)) [
  | inl small ↦ rw small (value-one n)
  | inr large ↦
      let fits : n / 10 < 10 ^ f = omega (arith, pow-suc 10 f) in
      rw large (
        rw (value-append 0 (b'0' + n % 10) (to_string_loop f (n / 10)))
          (omega (arith, value-to_string_loop f (n / 10) fits)))
]

-- Keys of two instances differ.
pub to_string-injective : (m n : ℕ) → m < 2 ^ 64 → n < 2 ^ 64 → to_string m ≡ to_string n → m ≡ n
unfolding to_string
to_string-injective m n hm hn e =
    sym (value-to_string_loop 20 m (omega arith))
    ∙ ap (value 0) e
    ∙ value-to_string_loop 20 n (omega arith)
