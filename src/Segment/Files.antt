-- ===== src/Segment/Files.antt =====
-- A file as its bytes. Calls on an open file are taken to succeed and to transfer all the bytes
-- there are.
use paxosme.Prelude.{
  ℕ, zero, suc, ◌+◌, ◌-◌, ◌≤◌, ◌≡◌, refl, sym, ap, ◌∙◌, [], ◌∷◌, ◌++◌, Bytes, length, take, drop,
  replicate, arith,
}
use paxosme.Prelude.{length-take, drop_front_part}

-- lseek and read: fewer bytes where the file ends.
unfoldable pub read_at : ℕ → ℕ → Bytes → Bytes
read_at offset n file = take n (drop offset file)

-- lseek and write: a gap past the end is filled with zeros.
unfoldable pub write_at : ℕ → Bytes → Bytes → Bytes
write_at offset bytes file =
    take offset file
    ++ (replicate (offset - length file) 0 ++ (bytes ++ drop (offset + length bytes) file))

-- ftruncate, which can also make a file longer.
unfoldable pub truncate : ℕ → Bytes → Bytes
truncate size file = take size file ++ replicate (size - length file) 0

pub drop-write_at :
    (offset : ℕ) (bytes file : Bytes)
    → offset ≤ length file
    → drop offset (write_at offset bytes file) ≡ bytes ++ drop (offset + length bytes) file
unfolding write_at
drop-write_at offset bytes file h =
    let no_gap : offset - length file ≡ 0 = omega arith in
    rw (drop_front_part offset (take offset file) _ (length-take offset file h), no_gap) refl

pub take_nil : (n : ℕ) → take {A = ℕ} n [] ≡ []
take_nil zero = refl
take_nil (suc n) = refl

pub drop_nil : (n : ℕ) → drop {A = ℕ} n [] ≡ []
drop_nil zero = refl
drop_nil (suc n) = refl

pub drop-drop : (m n : ℕ) (file : Bytes) → drop (m + n) file ≡ drop n (drop m file)
drop-drop zero n file = ap (λ (k : ℕ). drop k file) {y = n} (omega arith)
drop-drop (suc m) n [] = drop_nil (suc m + n) ∙ sym (drop_nil n)
drop-drop (suc m) n (b ∷ bs) =
    ap (λ (k : ℕ). drop k (b ∷ bs)) {y = suc (m + n)} (omega arith) ∙ drop-drop m n bs
