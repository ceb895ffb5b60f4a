-- ===== src/Kv/Closed.antt =====
-- KV::Init on a new object opens nothing.
use paxosme.Prelude.{
  ℕ, ◌≡◌, refl, Bool, true, false, none, some, List, [], ◌∷◌, Bytes, Run, ok, ◌>>=◌,
}
use mathlib.Core.List.{map}
use paxosme.LevelDb.{LevelDb}
use paxosme.Kv.Defs.{Kv, KvCodec, new_kv, is_empty, init, get, put}

-- A call on a KV.
pub data KvCall : Type 0 where
  call_init : (path : Bytes) → KvCall
  call_get : (key : Bytes) → KvCall
  call_put : (key value : Bytes) (ver : ℕ) → KvCall

unfoldable pub is_init : KvCall → Bool
is_init (call_init _) = true
is_init _ = false

module _ {D : Type 0} ⦃db : LevelDb D⦄ ⦃codec : KvCodec⦄ (open_db : Bytes → D × Bool) where
  -- The state after a call, and the `bool` that it returns.
  unfoldable pub call : KvCall → Kv D → Run (Kv D × Bool)
  unfolding init get put
  call (call_init path) kv = ok (init open_db path kv)
  call (call_get key) kv =
      get key kv >>= (λ found. elim found [ none ↦ ok (kv, false) | some _ ↦ ok (kv, true) ])
  call (call_put key value ver) kv = put key value ver kv

  unfoldable pub run : List KvCall → Kv D → Run (Kv D × List Bool)
  unfolding call
  run [] kv = ok (kv, [])
  run (c ∷ cs) kv =
      let rest = run cs in
      call c kv >>= (λ done. rest done.0 >>= (λ after. ok (after.0, done.1 ∷ after.1)))

  -- On a new KV, whatever is called and in whatever order: every Init returns true, every Get and Put
  -- returns false, and the KV is as new in the end; no database is ever opened.
  pub never_opens : (cs : List KvCall) → run cs new_kv ≡ ok (new_kv, map is_init cs)
  unfolding run call init get put is_empty is_init
  never_opens [] = refl
  never_opens (call_init path ∷ cs) = rw (never_opens cs) refl
  never_opens (call_get key ∷ cs) = rw (never_opens cs) refl
  never_opens (call_put key value ver ∷ cs) = rw (never_opens cs) refl
