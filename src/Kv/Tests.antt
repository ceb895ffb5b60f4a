-- ===== src/Kv/Tests.antt =====
-- A new key-value store over a database in memory, with a codec of its own.
use paxosme.Prelude.{◌≡◌, refl, Bool, true, false, List, [], ◌∷◌, Option, none, some, Bytes, ok}
use paxosme.Database.Tests.{memory_db}
use paxosme.Kv.Defs.{ValuePb, method_other, KvCodec}
use paxosme.Kv.Defs.{new_kv}
use paxosme.Kv.Closed.{call_init, call_get, call_put, is_init, run, never_opens}

abbrev encode_value : ValuePb → Option Bytes
encode_value v = some (v.ver ∷ v.value)

abbrev decode_value : Bytes → Option ValuePb
decode_value [] = none
decode_value (n ∷ b) = some (record { value = b; ver = n })

parse_encoded : (v : ValuePb) (b : Bytes) → encode_value v ≡ some b → decode_value b ≡ some v
parse_encoded v b e = let same : v.ver ∷ v.value ≡ b = cc in rw (← same) refl

instance abbrev list_codec : KvCodec
list_codec = record {
  serialize = encode_value;
  parse = decode_value;
  parse-serialize = λ v b small e. parse_encoded v b e;
  parse_command = λ b. record { key = []; value = b; ver = 0; method = method_other };
}

abbrev open_nothing : Bytes → List (Bytes × Bytes) × Bool
open_nothing _ = ([], true)

never_opens_example :
    run open_nothing
      (call_init (47 ∷ []) ∷ call_get (49 ∷ []) ∷ call_put (49 ∷ []) [] 0 ∷ [])
      new_kv
    ≡ ok (new_kv, true ∷ false ∷ false ∷ [])
unfolding is_init
never_opens_example =
    never_opens open_nothing
      (call_init (47 ∷ []) ∷ call_get (49 ∷ []) ∷ call_put (49 ∷ []) [] 0 ∷ [])
